-- ===== src/Recovery/One.antt =====
-- When the restore of one entry succeeds.
use signalk_doctor_server.Common.{
  ◌≡◌, ◌↔◌, refl, subst, Bool, true, false, Option, none, some, List, [], ◌∷◌, ◌++◌, String, str_eq,
  eq_iff, arith, any, ◌||◌, if◌then◌else◌, All, All-append,
}
use signalk_doctor_server.Common.Maps.{Map, lookup}
use signalk_doctor_server.Recovery.{
  Entry, Fault, no_fault, before_rename, after_rename, Machine, Faults, copied, read_snapshot,
  restore_one, unit_of, add_unit, Progress, after_restore,
}

module _ (faults : Faults) where
  -- The snapshot is there, and neither its copy nor what follows it fails.
  abbrev pub Restorable : Map String → (quadlet path : String) → Type 0
  Restorable snapshots quadlet path =
      ((body : String) × (lookup path snapshots ≡ some body)) × (faults.restore quadlet ≡ no_fault)

  abbrev pub Starts : String → Type 0
  Starts unit = faults.restart unit ≡ none

  -- A quadlet of no known unit has none to restart.
  abbrev pub StartsOwn : Option String → Type 0
  StartsOwn none = Unit
  StartsOwn (some unit) = Starts unit

  -- The quadlet of the entry can be restored, and its unit restarts.
  abbrev pub Works : Map String → String × Entry → Type 0
  Works snapshots (quadlet, entry) =
      Restorable snapshots quadlet entry.snapshot_path × StartsOwn (unit_of quadlet)

  pub restore_one_iff :
      (quadlet path : String) (m : Machine)
      → ((restore_one faults quadlet path m).1 ≡ none) ↔ Restorable m.snapshots quadlet path
  unfolding restore_one read_snapshot copied
  restore_one_iff quadlet path m = by_snapshot (lookup path m.snapshots)
    where
      by_fault :
          (body : String) (f : Fault)
          → ((copied f quadlet body m).1 ≡ none)
            ↔ (((b : String) × (some body ≡ some b)) × (f ≡ no_fault))
      by_fault body no_fault = (λ h. ((body, refl), refl), λ h. refl)
      by_fault body (before_rename e) = (λ h. cc h, λ ((b, k), h). cc h)
      by_fault body (after_rename e) = (λ h. cc h, λ ((b, k), h). cc h)

      by_snapshot :
          (o : Option String)
          → ((read_snapshot faults quadlet path o m).1 ≡ none)
            ↔ (((b : String) × (o ≡ some b)) × (faults.restore quadlet ≡ no_fault))
      by_snapshot none = (λ h. cc h, λ ((b, k), h). cc k)
      by_snapshot (some body) = by_fault body (faults.restore quadlet)

  pub restore_one-snapshots :
      (quadlet path : String) (m : Machine)
      → (restore_one faults quadlet path m).0.snapshots ≡ m.snapshots
  unfolding restore_one read_snapshot copied
  restore_one-snapshots quadlet path m = by_snapshot (lookup path m.snapshots)
    where
      by_fault : (body : String) (f : Fault) → (copied f quadlet body m).0.snapshots ≡ m.snapshots
      by_fault body no_fault = refl
      by_fault body (before_rename e) = refl
      by_fault body (after_rename e) = refl

      by_snapshot :
          (o : Option String) → (read_snapshot faults quadlet path o m).0.snapshots ≡ m.snapshots
      by_snapshot none = refl
      by_snapshot (some body) = by_fault body (faults.restore quadlet)

  listed-Starts :
      (unit : String) (units : List String)
      → any (str_eq unit) units ≡ true
      → All Starts units
      → Starts unit
  listed-Starts unit [] h all = cc h
  listed-Starts unit (u ∷ units) h (starts, all) =
      by_test (str_eq unit u) (λ k. ground (eq_iff unit u, k, arith)) h
        (λ k. listed-Starts unit units k all)
    where
      by_test :
          (b : Bool)
          → (b ≡ true → u ≡ unit)
          → (b || any (str_eq unit) units) ≡ true
          → (any (str_eq unit) units ≡ true → Starts unit)
          → Starts unit
      by_test true same k later = subst Starts (same refl) starts
      by_test false same k later = later k

  first-Starts : (xs ys : List String) → All Starts (xs ++ ys) → All Starts xs × All Starts ys
  first-Starts [] ys h = (tt, h)
  first-Starts (x ∷ xs) ys (h, hs) = let (l, r) = first-Starts xs ys hs in ((h, l), r)

  add_unit_iff :
      (o : Option String) (units : List String)
      → All Starts (add_unit o units) ↔ (All Starts units × StartsOwn o)
  unfolding add_unit
  add_unit_iff none units = (λ h. (h, tt), λ (h, t). h)
  add_unit_iff (some unit) units = by_test (any (str_eq unit) units) refl
    where
      by_test :
          (b : Bool)
          → any (str_eq unit) units ≡ b
          → All Starts (if b then units else units ++ unit ∷ []) ↔ (All Starts units × Starts unit)
      by_test true e = (λ h. (h, listed-Starts unit units e h), λ (h, t). h)
      by_test false e = (
        λ h. let (l, (r, t)) = first-Starts units (unit ∷ []) h in (l, r),
        λ (h, t). All-append Starts units (unit ∷ []) h (t, tt),
      )

  -- Nothing has failed so far, and the units to restart do.
  abbrev pub GoesWell : Progress → Type 0
  GoesWell p = (p.result.ok ≡ true) × All Starts p.units

  pub after_restore_iff :
      (quadlet : String) (entry : Entry) (p : Progress) (x : Machine × Option String)
      → (x.1 ≡ none) ↔ Restorable p.machine.snapshots quadlet entry.snapshot_path
      → GoesWell (after_restore quadlet entry p x)
        ↔ (GoesWell p × Works p.machine.snapshots (quadlet, entry))
  unfolding after_restore
  after_restore_iff quadlet entry p (m, none) (there, back) =
      let (to, from) = add_unit_iff (unit_of quadlet) p.units in
      (
        λ (ok, all). let (l, own) = to all in ((ok, l), (there refl, own)),
        λ ((ok, all), (r, own)). (ok, from (all, own)),
      )
  after_restore_iff quadlet entry p (m, some e) (there, back) =
      (λ (ok, all). cc ok, λ (well, (r, own)). let bad = back r in cc bad)

  pub after_restore-snapshots :
      (quadlet : String) (entry : Entry) (p : Progress) (x : Machine × Option String)
      → (after_restore quadlet entry p x).machine.snapshots ≡ x.0.snapshots
  unfolding after_restore
  after_restore-snapshots quadlet entry p (m, none) = refl
  after_restore-snapshots quadlet entry p (m, some e) = refl
