-- ===== src/Drift/Scanner/Invariant.antt =====
-- What every report of a scan has, whatever the registry answers.
use signalk_doctor_server.Common.{
  ◌≡◌, ◌∙◌, refl, sym, subst, get_or, Bool, true, false, Option, none, some, List, [], ◌∷◌, String,
  str_eq, eq_iff, if◌then◌else◌, arith, All, find, option_map, option_bind, Bool-cases, inl, inr,
}
use signalk_doctor_server.Drift.Types.{DriftLocation, DriftPackage, DriftReport}
use signalk_doctor_server.Drift.Registry.{
  NpmRegistryResult, fetched, not_modified, offline, registry_error,
}
use signalk_doctor_server.Drift.Registry.Echo.{IsEcho}
use signalk_doctor_server.Drift.Scanner.{
  InstalledPackage, InstalledResult, read, not_read, prior_entry, classify_location, prior_etag,
  prior_latest, entry, build_package_entry, ScanOutcome, Scan, scanned, scan_threw, ScanDeps,
  base_report, packages_of, scan_packages, unread_report, fresh_report, finish, after_read,
  run_drift_scan, tag_changed, read_running_signalk_image,
}

-- The class of each copy is the one that the stored latest version gives.
abbrev IsClassified : Option DriftLocation → Option String → Type 0
IsClassified l latest = l ≡ classify_location (option_map (λ c. c.installed) l) latest

classify_location-IsClassified :
    (installed latest : Option String) → IsClassified (classify_location installed latest) latest
unfolding classify_location
classify_location-IsClassified none latest = refl
classify_location-IsClassified (some v) latest = refl

-- A 304 echoes the etag of the request, so that the old etag is kept.
same_etag :
    (previous : Option String) (etag : String)
    → etag ≡ get_or previous ""
    → (if str_eq etag "" then previous else some etag) ≡ previous
same_etag none etag h = ground (eq_iff etag "", arith)
same_etag (some e) etag h = ground (eq_iff etag "", arith)

-- `Stands name etag version` says that the registry gave out the etag with that version of the
-- package.
module _ (Stands : String → String → String → Type 0) where
  -- A package's etag is kept only with the version that it stands for.
  abbrev pub IsVersioned : String → Option String → Option String → Type 0
  IsVersioned name etag latest =
      (e : String) → etag ≡ some e → (v : String) × (latest ≡ some v) × Stands name e v

  abbrev pub IsSound : DriftPackage → Type 0
  IsSound p =
      IsVersioned p.name p.etag p.latest
      × IsClassified p.image p.latest
      × IsClassified p.data_dir p.latest

  -- A fetched etag stands for the version that is fetched with it.
  abbrev pub IsCurrent : String → NpmRegistryResult → Type 0
  IsCurrent name (fetched v (some etag)) = Stands name etag v
  IsCurrent name (fetched v none) = Unit
  IsCurrent name (not_modified etag) = Unit
  IsCurrent name (offline detail) = Unit
  IsCurrent name (registry_error detail) = Unit

  -- The prior entry is one of that name.
  abbrev IsPrior : String → Option DriftPackage → Type 0
  IsPrior name prior = IsVersioned name (prior_etag prior) (prior_latest prior)

  entry-IsSound :
      (installed : InstalledPackage) (latest etag at : Option String)
      → IsVersioned installed.name etag latest
      → IsSound (entry installed latest etag at)
  entry-IsSound installed latest etag at h = (
    h,
    classify_location-IsClassified installed.image latest,
    classify_location-IsClassified installed.data_dir latest,
  )

  fetched-IsVersioned :
      (name v : String) (etag : Option String)
      → IsCurrent name (fetched v etag)
      → IsVersioned name etag (some v)
  fetched-IsVersioned name v none current = λ e k. cc k
  fetched-IsVersioned name v (some etag) current =
      λ e k. let same : etag ≡ e = cc in (v, refl, subst (λ x. Stands name x v) same current)

  build_package_entry-IsSound :
      (installed : InstalledPackage) (r : NpmRegistryResult) (prior : Option DriftPackage)
      (now : String)
      → IsEcho (prior_etag prior) r
      → IsCurrent installed.name r
      → IsPrior installed.name prior
      → IsSound (build_package_entry installed r prior now)
  unfolding build_package_entry
  build_package_entry-IsSound installed (fetched v etag) prior now echo current h =
      entry-IsSound installed (some v) etag (some now)
        (fetched-IsVersioned installed.name v etag current)
  build_package_entry-IsSound installed (not_modified etag) prior now echo current h =
      entry-IsSound installed (prior_latest prior) _ (some now)
        (λ e k. h e (sym (same_etag (prior_etag prior) etag echo) ∙ k))
  build_package_entry-IsSound installed (offline d) prior now echo current h =
      entry-IsSound installed (prior_latest prior) (prior_etag prior)
        (option_bind prior (λ q. q.last_fetched_at)) h
  build_package_entry-IsSound installed (registry_error d) prior now echo current h =
      entry-IsSound installed (prior_latest prior) (prior_etag prior)
        (option_bind prior (λ q. q.last_fetched_at)) h

  find-IsPrior :
      (name : String) (ps : List DriftPackage)
      → All IsSound ps
      → IsPrior name (find (λ p. str_eq p.name name) ps)
  find-IsPrior name [] h = λ e k. cc k
  find-IsPrior name (p ∷ ps) (sound, more) =
      either (str_eq p.name name) (λ k. ground (eq_iff p.name name, k, arith))
        (find-IsPrior name ps more)
    where
      either :
          (b : Bool)
          → (b ≡ true → p.name ≡ name)
          → IsPrior name (find (λ p. str_eq p.name name) ps)
          → IsPrior name (elim b [ true ↦ some p | false ↦ find (λ p. str_eq p.name name) ps ])
      either true named later = subst (λ x. IsVersioned x p.etag p.latest) (named refl) sound.0
      either false named later = later

  prior_entry-IsPrior :
      (base : Option DriftReport) (name : String)
      → All IsSound (packages_of base)
      → IsPrior name (prior_entry base name)
  unfolding prior_entry
  prior_entry-IsPrior none name h = λ e k. cc k
  prior_entry-IsPrior (some r) name h = find-IsPrior name r.packages h

  base_report-Sound :
      (prior : Option DriftReport) (tag : Option String)
      → All IsSound (packages_of prior)
      → All IsSound (packages_of (base_report prior tag))
  unfolding base_report
  base_report-Sound none tag h = tt
  base_report-Sound (some r) tag h = elim (Bool-cases (tag_changed r.signalk_image_tag tag)) [
    | inl e ↦ rw e tt
    | inr e ↦ rw e h
  ]

abbrev pub Reports : (DriftReport → Type 0) → Scan → Type 0
Reports P (scanned o) = P o.report
Reports P (scan_threw e) = Unit

module _ (Stands : String → String → String → Type 0) {W : Type 0} (deps : ScanDeps W)
    (now : String) where
  -- The registry client of the scan keeps its promise.
  abbrev pub Echoes : Type 0
  Echoes =
      (name : String) (previous : Option String) (w : W)
      → IsEcho previous (deps.get_latest name previous w).0
        × IsCurrent Stands name (deps.get_latest name previous w).0

  scan_packages-Sound :
      (base : Option DriftReport) (installed : List InstalledPackage) (w : W)
      → Echoes
      → All (IsSound Stands) (packages_of base)
      → All (IsSound Stands) (scan_packages deps now base installed w).0.0
  unfolding scan_packages
  scan_packages-Sound base [] w echo h = tt
  scan_packages-Sound base (i ∷ rest) w echo h =
      let prior = prior_entry base i.name in
      let fetch = deps.get_latest i.name (prior_etag prior) w in
      (
        build_package_entry-IsSound Stands i fetch.0 prior now (echo i.name (prior_etag prior) w).0
            (echo i.name (prior_etag prior) w).1 (prior_entry-IsPrior Stands base i.name h),
        scan_packages-Sound base rest fetch.1 echo h,
      )

  finish-Reports :
      (P : DriftReport → Type 0) (o : ScanOutcome) (r : Option String × W)
      → P o.report
      → Reports P (finish deps now o r).0
  unfolding finish
  finish-Reports P o (none, w) h = h
  finish-Reports P o (some e, w) h = tt

  after_read-Sound :
      (base : Option DriftReport) (tag : Option String) (installed : InstalledResult) (w : W)
      → Echoes
      → All (IsSound Stands) (packages_of base)
      → Reports (λ r. All (IsSound Stands) r.packages) (after_read deps now base tag installed w).0
  unfolding after_read unread_report fresh_report
  after_read-Sound base tag (not_read reason detail) w echo h =
      let report = unread_report deps now base tag reason detail in
      finish-Reports (λ r. All (IsSound Stands) r.packages) _ (deps.save_report report w) h
  after_read-Sound base tag (read installed) w echo h =
      let ((packages, online), w') = scan_packages deps now base installed w in
      let report = fresh_report deps now base tag packages online in
      finish-Reports (λ r. All (IsSound Stands) r.packages) _ (deps.save_report report w')
        (scan_packages-Sound base installed w echo h)

  -- Every report that a scan writes is sound if the stored one was: a package has an
  -- etag only together with the very version that the registry gave out with that etag for the
  -- package's name, so that a 304 always leaves the right version to compare with, and each copy's
  -- class is what the stored latest version gives. The registry client echoes etags, and the pairs
  -- of version and etag that it fetches are the registry's.
  pub run_drift_scan-IsSound :
      (w : W)
      → Echoes
      → All (IsSound Stands) (packages_of (deps.load_report w).0)
      → Reports (λ r. All (IsSound Stands) r.packages) (run_drift_scan deps now w).0
  unfolding run_drift_scan
  run_drift_scan-IsSound w echo h =
      let (prior, w1) = deps.load_report w in
      let (info, w2) = deps.inspect_server w1 in
      let tag = read_running_signalk_image info in
      let (installed, w3) = deps.read_installed w2 in
      after_read-Sound (base_report prior tag) tag installed w3 echo
        (base_report-Sound Stands prior tag h)
