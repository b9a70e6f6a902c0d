-- ===== src/Probes/DependencyDrift/Verdict.antt =====
-- What each status of the probe says of the stored report.
use signalk_doctor_server.Common.{
  ℕ, ◌≡◌, ◌≢◌, ◌↔◌, refl, Bool, true, false, Option, none, some, List, [], ◌∷◌, sym, ◌∙◌, String,
  if◌then◌else◌, any,
}
use signalk_doctor_server.Drift.Types.{DriftPackage, DriftReport}
use signalk_doctor_server.Probes.Runner
use signalk_doctor_server.Probes.Runner.{ProbeStatus}
use signalk_doctor_server.Probes.DependencyDrift.{
  MajorEntry, collect_majors, is_uncompared, has_location, without_majors, with_majors, of_packages,
  of_report, probe_dependency_drift,
}
use signalk_doctor_server.Probes.DependencyDrift.Places.{
  AllFine, SomeMajor, ReportFine, ReportMajor, collect_majors_iff, some_major, find_major,
  packages_fine, any-In, major_located, fine_located,
}

module _ (parse_date : String → Option ℕ) (now : ℕ) (decimal days : ℕ → String) where
  abbrev status_of : ProbeStatus × String → ProbeStatus
  status_of r = r.0

  without_majors_status :
      (ps : List DriftPackage)
      → (without_majors parse_date now decimal days ps).0
        ≡ (if any is_uncompared ps then Runner.unknown else Runner.ok)
  unfolding without_majors
  without_majors_status ps = by_test (any is_uncompared ps) _ _
    where
      by_test :
          (b : Bool) (x y : String)
          → status_of (if b then (Runner.unknown, x) else (Runner.ok, y))
            ≡ (if b then Runner.unknown else Runner.ok)
      by_test true x y = refl
      by_test false x y = refl

  -- By whether the packages have a place, a major copy and a missing comparison.
  status_by : (located : Bool) → List MajorEntry → (uncompared : Bool) → ProbeStatus
  status_by false es u = Runner.unknown
  status_by true (e ∷ es) u = Runner.warn
  status_by true [] true = Runner.unknown
  status_by true [] false = Runner.ok

  of_packages_status :
      (p : DriftPackage) (ps : List DriftPackage)
      → (of_packages parse_date now decimal days (p ∷ ps)).0
        ≡ status_by
            (any has_location (p ∷ ps))
            (collect_majors (p ∷ ps))
            (any is_uncompared (p ∷ ps))
  unfolding of_packages with_majors status_by
  of_packages_status p ps = by_tests (any has_location (p ∷ ps)) (collect_majors (p ∷ ps)) _
    where
      by_tests :
          (b : Bool) (es : List MajorEntry) (m : String)
          → status_of (
              if b
              then with_majors parse_date now decimal days es (p ∷ ps)
              else (Runner.unknown, m))
            ≡ status_by b es (any is_uncompared (p ∷ ps))
      by_tests false es m = refl
      by_tests true (e ∷ es) m = refl
      by_tests true [] m = without_majors_status (p ∷ ps) ∙ last (any is_uncompared (p ∷ ps))
        where
          last : (u : Bool) → (if u then Runner.unknown else Runner.ok) ≡ status_by true [] u
          last true = refl
          last false = refl

  status_by_ok :
      (b : Bool) (es : List MajorEntry) (u : Bool)
      → (status_by b es u ≡ Runner.ok) ↔ ((b ≡ true) × (es ≡ []) × (u ≡ false))
  unfolding status_by
  status_by_ok false es u = (λ h. cc h, λ (e, f, g). cc e)
  status_by_ok true (e ∷ es) u = (λ h. cc h, λ (x, f, g). cc f)
  status_by_ok true [] true = (λ h. cc h, λ (e, f, g). cc g)
  status_by_ok true [] false = (λ h. (refl, refl, refl), λ h. refl)

  status_by_warn :
      (b : Bool) (es : List MajorEntry) (u : Bool)
      → (status_by b es u ≡ Runner.warn) ↔ ((b ≡ true) × (es ≢ []))
  unfolding status_by
  status_by_warn false es u = (λ h. cc h, λ (e, f). cc e)
  status_by_warn true (e ∷ es) u = (λ h. (refl, λ k. cc k), λ h. refl)
  status_by_warn true [] true = (λ h. cc h, λ (e, f). absurd (f refl))
  status_by_warn true [] false = (λ h. cc h, λ (e, f). absurd (f refl))

  -- All is well exactly if there is a report, it has packages, and every package has a place and
  -- each of its places is compared and no major version behind. The probe warns exactly if some
  -- copy of a package is a major version behind.
  pub probe_dependency_drift_iff :
      (report : Option DriftReport) (duration_ms : ℕ)
      → let r = probe_dependency_drift parse_date now decimal days report duration_ms in
        ((r.status ≡ Runner.ok) ↔ ReportFine report)
        × ((r.status ≡ Runner.warn) ↔ ReportMajor report)
  unfolding probe_dependency_drift of_report of_packages
  probe_dependency_drift_iff none ms = ((λ h. cc h, λ h. elim h [ ]), (λ h. cc h, λ h. elim h [ ]))
  probe_dependency_drift_iff (some r) ms = by_packages r.packages
    where
      by_packages :
          (ps : List DriftPackage)
          → (((of_packages parse_date now decimal days ps).0 ≡ Runner.ok)
              ↔ ((ps ≢ []) × AllFine ps))
            × (((of_packages parse_date now decimal days ps).0 ≡ Runner.warn) ↔ SomeMajor ps)
      by_packages [] =
          ((λ h. cc h, λ (n, a). absurd (n refl)), (λ h. cc h, λ (p, i, m). elim i [ ]))
      by_packages (p ∷ ps) =
          let e = of_packages_status p ps in
          let o =
            status_by_ok (any has_location (p ∷ ps)) (collect_majors (p ∷ ps))
              (any is_uncompared (p ∷ ps)) in
          let w =
            status_by_warn (any has_location (p ∷ ps)) (collect_majors (p ∷ ps))
              (any is_uncompared (p ∷ ps)) in
          let c = collect_majors_iff (p ∷ ps) in
          let f = packages_fine (p ∷ ps) in
          (
            (
              λ h. let (x, y, z) = o.0 (sym e ∙ h) in (λ k. cc k, f.0 (z, c.0 y)),
              λ (n, a). let (u, m) = f.1 a in e ∙ o.1 (fine_located (p ∷ ps) n a, c.1 m, u),
            ),
            (
              λ h. find_major (p ∷ ps) (w.0 (sym e ∙ h)).1,
              λ (q, i, m).
                  e
                  ∙ w.1 (
                    any-In has_location (p ∷ ps) i (major_located q m),
                    some_major (p ∷ ps) (q, i, m),
                  ),
            ),
          )
