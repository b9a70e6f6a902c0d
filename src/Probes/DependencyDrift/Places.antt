-- ===== src/Probes/DependencyDrift/Places.antt =====
-- What the places of the packages say: which are fine, and which are a major version behind.
use signalk_doctor_server.Common.{
  ◌≡◌, ◌≢◌, ◌↔◌, refl, ◌⊎◌, inl, inr, Bool, true, false, ◌&&◌, ◌||◌, not, Option, none, some, List,
  [], ◌∷◌, ◌++◌, subst, if◌then◌else◌, ◌==◌, any, is_some, All, All-In, In, Empty, Bool-cases,
}
use signalk_doctor_server.Drift.Types.{
  DriftClassification, up_to_date, patch, minor, major, prerelease, unknown, DriftLocation,
  DriftPackage, DriftReport,
}
use signalk_doctor_server.Probes.DependencyDrift.{
  severity, Location, in_image, in_data_dir, MajorEntry, is_major, is_unknown, major_at,
  collect_majors, is_uncompared, has_location,
}

-- A place that is resolved is compared, and no major version behind.
abbrev pub IsFine : Option DriftLocation → Type 0
IsFine none = Unit
IsFine (some l) = (l.classification ≢ unknown) × (l.classification ≢ major)

abbrev pub IsMajor : Option DriftLocation → Type 0
IsMajor none = Empty
IsMajor (some l) = l.classification ≡ major

abbrev pub AllFine : List DriftPackage → Type 0
AllFine =
    All λ p. (is_some p.image || is_some p.data_dir ≡ true) × IsFine p.image × IsFine p.data_dir

abbrev pub SomeMajor : List DriftPackage → Type 0
SomeMajor ps = (p : DriftPackage) × In p ps × (IsMajor p.image ⊎ IsMajor p.data_dir)

-- There is a report, it has packages, and all of them are fine.
abbrev pub ReportFine : Option DriftReport → Type 0
ReportFine none = Empty
ReportFine (some r) = (r.packages ≢ []) × AllFine r.packages

abbrev pub ReportMajor : Option DriftReport → Type 0
ReportMajor none = Empty
ReportMajor (some r) = SomeMajor r.packages

class_fine :
    (c : DriftClassification)
    → (((severity c == 1) ≡ false) × ((severity c == 5) ≡ false)) ↔ ((c ≢ unknown) × (c ≢ major))
unfolding severity
class_fine up_to_date = (λ h. (λ e. cc, λ e. cc), λ h. (refl, refl))
class_fine patch = (λ h. (λ e. cc, λ e. cc), λ h. (refl, refl))
class_fine minor = (λ h. (λ e. cc, λ e. cc), λ h. (refl, refl))
class_fine prerelease = (λ h. (λ e. cc, λ e. cc), λ h. (refl, refl))
class_fine unknown = (λ (a, b). cc a, λ (a, b). absurd (a refl))
class_fine major = (λ (a, b). cc b, λ (a, b). absurd (b refl))

class_major : (c : DriftClassification) → (severity c == 5) ≡ true → c ≡ major
unfolding severity
class_major up_to_date h = cc
class_major patch h = cc
class_major minor h = cc
class_major prerelease h = cc
class_major unknown h = cc
class_major major h = refl

major_class : (o : Option DriftLocation) → IsMajor o → is_major o ≡ true
unfolding severity
major_class none h = elim h [ ]
major_class (some l) h = rw h refl

place-IsFine :
    (o : Option DriftLocation) → ((is_unknown o ≡ false) × (is_major o ≡ false)) ↔ IsFine o
place-IsFine none = (λ h. tt, λ h. (refl, refl))
place-IsFine (some l) = class_fine l.classification

-- No major copy in the package.
abbrev NoMajor : DriftPackage → Type 0
NoMajor p = (is_major p.image ≡ false) × (is_major p.data_dir ≡ false)

append_nil_iff : (xs ys : List MajorEntry) → (xs ++ ys ≡ []) ↔ ((xs ≡ []) × (ys ≡ []))
append_nil_iff [] ys = (λ h. (refl, h), λ (e, h). h)
append_nil_iff (x ∷ xs) ys = (λ h. cc, λ (e, h). cc e)

major_at_iff :
    (p : DriftPackage) (w : Location) (o : Option DriftLocation)
    → (major_at p w o ≡ []) ↔ (is_major o ≡ false)
unfolding major_at
major_at_iff p w none = (λ h. refl, λ h. refl)
major_at_iff p w (some l) = by_test (severity l.classification == 5) _
  where
    by_test : (b : Bool) (e : MajorEntry) → ((if b then e ∷ [] else []) ≡ []) ↔ (b ≡ false)
    by_test true e = (λ h. cc, λ h. cc)
    by_test false e = (λ h. refl, λ h. refl)

pub collect_majors_iff : (ps : List DriftPackage) → (collect_majors ps ≡ []) ↔ All NoMajor ps
unfolding collect_majors
collect_majors_iff [] = (λ h. tt, λ h. refl)
collect_majors_iff (p ∷ ps) =
    let a =
      append_nil_iff (major_at p in_image p.image)
        (major_at p in_data_dir p.data_dir ++ collect_majors ps) in
    let b = append_nil_iff (major_at p in_data_dir p.data_dir) (collect_majors ps) in
    let i = major_at_iff p in_image p.image in
    let d = major_at_iff p in_data_dir p.data_dir in
    let ih = collect_majors_iff ps in
    (
      λ h. let (x, rest) = a.0 h in let (y, z) = b.0 rest in ((i.0 x, d.0 y), ih.0 z),
      λ ((x, y), z). a.1 (i.1 x, b.1 (d.1 y, ih.1 z)),
    )

one_major : (p : DriftPackage) → IsMajor p.image ⊎ IsMajor p.data_dir → NoMajor p → ⊥
one_major p (inl m) (a, b) = cc (major_class p.image m)
one_major p (inr m) (a, b) = cc (major_class p.data_dir m)

pub some_major : (ps : List DriftPackage) → SomeMajor ps → collect_majors ps ≢ []
some_major ps (p, i, m) h = one_major p m (All-In NoMajor ps ((collect_majors_iff ps).0 h) i)

pub find_major : (ps : List DriftPackage) → collect_majors ps ≢ [] → SomeMajor ps
unfolding collect_majors
find_major [] h = absurd (h refl)
find_major (p ∷ ps) h = elim (Bool-cases (is_major p.image)) [
  | inl e ↦ (p, inl refl, inl (place_major p.image e))
  | inr e ↦ elim (Bool-cases (is_major p.data_dir)) [
    | inl f ↦ (p, inl refl, inr (place_major p.data_dir f))
    | inr f ↦
        let (q, i, m) = find_major ps (λ none_there.
          h ((collect_majors_iff (p ∷ ps)).1 ((e, f), (collect_majors_iff ps).0 none_there))) in
        (q, inr i, m)
  ]
]
  where
    place_major : (o : Option DriftLocation) → is_major o ≡ true → IsMajor o
    place_major none k = cc
    place_major (some l) k = class_major l.classification k

or_false : (a b : Bool) → (a || b ≡ false) ↔ ((a ≡ false) × (b ≡ false))
or_false true b = (λ h. cc, λ (e, f). cc e)
or_false false b = (λ h. (refl, h), λ (e, f). f)

package-IsFine :
    (p : DriftPackage)
    → ((is_uncompared p ≡ false) × NoMajor p)
      ↔ ((is_some p.image || is_some p.data_dir ≡ true) × IsFine p.image × IsFine p.data_dir)
unfolding is_uncompared
package-IsFine p = by_places p.image p.data_dir
  where
    both :
        (i d : Option DriftLocation)
        → ((is_unknown i || is_unknown d ≡ false) × ((is_major i ≡ false) × (is_major d ≡ false)))
          ↔ (IsFine i × IsFine d)
    both i d =
        let o = or_false (is_unknown i) (is_unknown d) in
        (
          λ (u, (m, n)).
              let (a, b) = o.0 u in ((place-IsFine i).0 (a, m), (place-IsFine d).0 (b, n)),
          λ (f, g).
              let (a, m) = (place-IsFine i).1 f in
              let (b, n) = (place-IsFine d).1 g in (o.1 (a, b), (m, n)),
        )

    by_places :
        (i d : Option DriftLocation)
        → (((not (is_some i) && not (is_some d)) || is_unknown i || is_unknown d ≡ false)
            × ((is_major i ≡ false) × (is_major d ≡ false)))
          ↔ ((is_some i || is_some d ≡ true) × IsFine i × IsFine d)
    by_places none none = (λ (h, m). cc h, λ (e, f, g). cc e)
    by_places none (some l) =
        let t = both none (some l) in
        (λ h. let (f, g) = t.0 h in (refl, f, g), λ (e, f, g). t.1 (f, g))
    by_places (some l) d =
        let t = both (some l) d in
        (λ h. let (f, g) = t.0 h in (refl, f, g), λ (e, f, g). t.1 (f, g))

pub packages_fine :
    (ps : List DriftPackage) → ((any is_uncompared ps ≡ false) × All NoMajor ps) ↔ AllFine ps
packages_fine [] = (λ h. tt, λ h. (refl, tt))
packages_fine (p ∷ ps) =
    let o = or_false (is_uncompared p) (any is_uncompared ps) in
    let ih = packages_fine ps in
    (
      λ (u, (m, n)). let (a, b) = o.0 u in ((package-IsFine p).0 (a, m), ih.0 (b, n)),
      λ (f, g). let (a, m) = (package-IsFine p).1 f in let (b, n) = ih.1 g in (o.1 (a, b), (m, n)),
    )

or_right : (a b : Bool) → b ≡ true → a || b ≡ true
or_right true b h = refl
or_right false b h = h

or_left : (a b : Bool) → a ≡ true → a || b ≡ true
or_left true b h = refl
or_left false b h = cc h

pub any-In :
    (f : DriftPackage → Bool) {p : DriftPackage} (ps : List DriftPackage)
    → In p ps
    → f p ≡ true
    → any f ps ≡ true
any-In f [] i h = elim i [ ]
any-In f (q ∷ ps) (inl e) h = or_left (f q) (any f ps) (subst (λ r. f r ≡ true) e h)
any-In f (q ∷ ps) (inr i) h = or_right (f q) (any f ps) (any-In f ps i h)

-- A package with a major copy has a place.
pub major_located :
    (p : DriftPackage) → IsMajor p.image ⊎ IsMajor p.data_dir → has_location p ≡ true
major_located p m = by_places p.image p.data_dir m
  where
    by_places : (i d : Option DriftLocation) → IsMajor i ⊎ IsMajor d → is_some i || is_some d ≡ true
    by_places none none (inl m) = elim m [ ]
    by_places none none (inr m) = elim m [ ]
    by_places none (some l) m = refl
    by_places (some l) d m = refl

pub fine_located : (ps : List DriftPackage) → ps ≢ [] → AllFine ps → any has_location ps ≡ true
fine_located [] n h = absurd (n refl)
fine_located (p ∷ ps) n h = or_left (has_location p) (any has_location ps) h.0.0
