-- ===== src/Drift/Heal/Outcomes.antt =====
-- What is healed, and what is claimed of each copy afterwards.
use signalk_doctor_server.Common.{
  ◌≡◌, refl, ◌≢◌, ◌⊎◌, inl, inr, ◌↔◌, Bool, true, Option, none, some, List, [], ◌∷◌, arith, eq_iff,
  In, Option-cases, sym, subst, ap,
}
use signalk_doctor_server.Drift.Types.{DriftLocation, DriftPackage, DriftReport}
use signalk_doctor_server.Drift.Explain.{PackageExplanation}
use signalk_doctor_server.Drift.Heal.{
  HealTarget, updated, range_limited, is_behind, select_heal_targets, select_from, outcome_for,
  find_package, outcome_of, outcome_at, prepend_target, drifting_copy, target_of,
}

-- The two claims, on a package as the rescan found it.
abbrev IsLimited : HealTarget → Bool → Option DriftPackage → Type 0
IsLimited t npm_succeeded found =
    (p : DriftPackage) × (copy : DriftLocation) × (npm_succeeded ≡ true)
    × (found ≡ some p)
    × (p.data_dir ≡ some copy)
    × (copy.installed ≡ t.from)
    × (is_behind copy.classification ≡ true)

abbrev HasMoved : HealTarget → Option DriftPackage → Type 0
HasMoved t found =
    (p : DriftPackage) × (found ≡ some p)
    × ((p.data_dir ≡ none)
        ⊎ ((copy : DriftLocation) × (p.data_dir ≡ some copy) × (copy.installed ≢ t.from)))

module _ (t : HealTarget) (npm_succeeded : Bool) (e : Option PackageExplanation) where
  IsLimited-sound :
      (found : Option DriftPackage)
      → (outcome_of t npm_succeeded e found).outcome ≡ range_limited
      → IsLimited t npm_succeeded found
  unfolding outcome_of outcome_at
  IsLimited-sound none h = cc
  IsLimited-sound (some p) h = elim (Option-cases p.data_dir) [
    | inl gone ↦ ground arith
    | inr (copy, found_there) ↦ (
      p,
      copy,
      ground arith,
      refl,
      found_there,
      ground (arith, eq_iff copy.installed t.from),
      ground arith,
    )
  ]

  IsLimited-complete :
      (found : Option DriftPackage)
      → IsLimited t npm_succeeded found
      → (outcome_of t npm_succeeded e found).outcome ≡ range_limited
  unfolding outcome_of outcome_at
  IsLimited-complete found (p, copy, ok, is, found_there, same, behind) =
      ground (arith, eq_iff copy.installed t.from)

  HasMoved-sound :
      (found : Option DriftPackage)
      → (outcome_of t npm_succeeded e found).outcome ≡ updated
      → HasMoved t found
  unfolding outcome_of outcome_at
  HasMoved-sound none h = cc
  HasMoved-sound (some p) h = elim (Option-cases p.data_dir) [
    | inl gone ↦ (p, refl, inl gone)
    | inr (copy, found_there) ↦
        (p, refl, inr (copy, found_there, λ same. ground (arith, eq_iff copy.installed t.from)))
  ]

  HasMoved-complete :
      (found : Option DriftPackage)
      → HasMoved t found
      → (outcome_of t npm_succeeded e found).outcome ≡ updated
  unfolding outcome_of outcome_at
  HasMoved-complete found (p, is, inl gone) = ground arith
  HasMoved-complete found (p, is, inr (copy, found_there, differs)) =
      ground (arith, eq_iff copy.installed t.from)

module _ (t : HealTarget) (after : Option DriftReport) (npm_succeeded : Bool)
    (e : Option PackageExplanation) where
  -- 'range-limited' is claimed exactly when npm succeeded and the rescan found the copy at its old
  -- version and behind the registry.
  pub outcome_for-range_limited_iff :
      ((outcome_for t after npm_succeeded e).outcome ≡ range_limited) ↔ (
        (p : DriftPackage) × (copy : DriftLocation) × (npm_succeeded ≡ true)
        × (find_package after t.name ≡ some p)
        × (p.data_dir ≡ some copy)
        × (copy.installed ≡ t.from)
        × (is_behind copy.classification ≡ true))
  unfolding outcome_for
  outcome_for-range_limited_iff = (
    IsLimited-sound t npm_succeeded e (find_package after t.name),
    IsLimited-complete t npm_succeeded e (find_package after t.name),
  )

  -- 'updated' is claimed exactly when the rescan found the package with its plugin-tree copy gone
  -- or at another version.
  pub outcome_for-updated_iff : ((outcome_for t after npm_succeeded e).outcome ≡ updated) ↔ (
      (p : DriftPackage) × (find_package after t.name ≡ some p)
      × ((p.data_dir ≡ none)
          ⊎ ((copy : DriftLocation) × (p.data_dir ≡ some copy) × (copy.installed ≢ t.from))))
  unfolding outcome_for
  outcome_for-updated_iff = (
    HasMoved-sound t npm_succeeded e (find_package after t.name),
    HasMoved-complete t npm_succeeded e (find_package after t.name),
  )

-- A package whose plugin-tree copy is behind.
abbrev pub Drifts : DriftPackage → DriftLocation → Type 0
Drifts p copy = (p.data_dir ≡ some copy) × (is_behind copy.classification ≡ true)

drifting_copy_iff :
    (p : DriftPackage) (copy : DriftLocation) → (drifting_copy p ≡ some copy) ↔ Drifts p copy
drifting_copy_iff p copy = (λ h. (ground arith, ground arith), λ d. ground arith)

select_sound :
    (t : HealTarget) (ps : List DriftPackage)
    → In t (select_from ps)
    → (p : DriftPackage) × (copy : DriftLocation) × In p ps × Drifts p copy × (t ≡ target_of p copy)
unfolding select_from prepend_target
select_sound t [] m = elim m [ ]
select_sound t (p ∷ rest) m = split (drifting_copy p) refl m (select_sound t rest)
  where
    Source : List DriftPackage → Type 0
    Source ps =
        (q : DriftPackage) × (copy : DriftLocation) × In q ps
        × Drifts q copy
        × (t ≡ target_of q copy)

    deeper : Source rest → Source (p ∷ rest)
    deeper (q, copy, within, d, e) = (q, copy, inr within, d, e)

    split :
        (c : Option DriftLocation)
        → drifting_copy p ≡ c
        → In t (prepend_target p c (select_from rest))
        → (In t (select_from rest) → Source rest)
        → Source (p ∷ rest)
    split none e m ih = deeper (ih m)
    split (some copy) e (inl same) ih = (p, copy, inl refl, (drifting_copy_iff p copy).0 e, same)
    split (some copy) e (inr m) ih = deeper (ih m)

select_complete :
    (p : DriftPackage) (copy : DriftLocation) (ps : List DriftPackage)
    → Drifts p copy
    → In p ps
    → In (target_of p copy) (select_from ps)
unfolding select_from prepend_target
select_complete p copy [] d m = elim m [ ]
select_complete p copy (q ∷ rest) d (inl same) =
    let selected : drifting_copy q ≡ some copy =
      subst (λ x. drifting_copy x ≡ some copy) same ((drifting_copy_iff p copy).1 d) in
    rw selected (inl (ap (λ x. target_of x copy) same))
select_complete p copy (q ∷ rest) d (inr m) =
    skip (drifting_copy q) (select_complete p copy rest d m)
  where
    skip :
        (c : Option DriftLocation)
        → In (target_of p copy) (select_from rest)
        → In (target_of p copy) (prepend_target q c (select_from rest))
    skip none m = m
    skip (some c) m = inr m

-- The targets are exactly the plugin-tree copies that are a patch, a minor or a major version
-- behind: each comes from such a copy of a listed package, and each such copy is a target.
pub select_heal_targets_iff :
    (report : DriftReport) (t : HealTarget)
    → In t (select_heal_targets report) ↔ (
        (p : DriftPackage) × (copy : DriftLocation) × In p report.packages
        × Drifts p copy
        × (t ≡ target_of p copy))
unfolding select_heal_targets
select_heal_targets_iff report t = (
  select_sound t report.packages,
  λ source.
      let (p, copy, within, d, e) = source in
      subst (λ x. In x (select_from report.packages)) (sym e)
        (select_complete p copy report.packages d within),
)
