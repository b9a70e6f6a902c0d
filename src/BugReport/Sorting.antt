-- ===== src/BugReport/Sorting.antt =====
-- The order of the names, and the sort by it.
use signalk_doctor_server.Common.{
  ℕ, ◌≡◌, refl, inl, inr, Bool, true, false, List, [], ◌∷◌, arith, if◌then◌else◌, All, All-map, In,
}
use signalk_doctor_server.BugReport.{before, place_name, sort_names}

abbrev pub Sorted : List (List ℕ) → Type 0
Sorted [] = Unit
Sorted (f ∷ fs) = All (λ g. before f g ≡ true) fs × Sorted fs

before-before : (a b c : List ℕ) → before a b ≡ true → before b c ≡ true → before a c ≡ true
unfolding before
before-before [] b c h k = refl
before-before (x ∷ a) [] c h k = cc
before-before (x ∷ a) (y ∷ b) [] h k = cc
before-before (x ∷ a) (y ∷ b) (z ∷ c) h k = ground (before-before a b c, h, k, arith)

before_total : (a b : List ℕ) → before a b ≡ false → before b a ≡ true
unfolding before
before_total [] b h = cc
before_total (x ∷ a) [] h = refl
before_total (x ∷ a) (y ∷ b) h = ground (before_total a b, h, arith)

pub before_refl : (a : List ℕ) → before a a ≡ true
unfolding before
before_refl [] = refl
before_refl (x ∷ a) = ground (before_refl a, arith)

place_name-All :
    (P : List ℕ → Type 0) (f : List ℕ) (fs : List (List ℕ))
    → P f
    → All P fs
    → All P (place_name f fs)
unfolding place_name
place_name-All P f [] h hs = (h, tt)
place_name-All P f (g ∷ fs) h (hg, hs) = by_test (before f g) (place_name-All P f fs h hs)
  where
    by_test :
        (b : Bool) → All P (place_name f fs) → All P (if b then f ∷ g ∷ fs else g ∷ place_name f fs)
    by_test true later = (h, (hg, hs))
    by_test false later = (hg, later)

place_name-Sorted : (f : List ℕ) (fs : List (List ℕ)) → Sorted fs → Sorted (place_name f fs)
unfolding place_name
place_name-Sorted f [] h = (tt, tt)
place_name-Sorted f (g ∷ fs) (after, h) = by_test (before f g) refl (place_name-Sorted f fs h)
  where
    by_test :
        (b : Bool)
        → before f g ≡ b
        → Sorted (place_name f fs)
        → Sorted (if b then f ∷ g ∷ fs else g ∷ place_name f fs)
    by_test true e later = (
      (
        e,
        All-map (λ x. before g x ≡ true) (λ x. before f x ≡ true) fs
            (λ x k. before-before f g x e k) after,
      ),
      (after, h),
    )
    by_test false e later =
        (place_name-All (λ x. before g x ≡ true) f fs (before_total f g e) after, later)

pub sort_names-Sorted : (fs : List (List ℕ)) → Sorted (sort_names fs)
unfolding sort_names
sort_names-Sorted [] = tt
sort_names-Sorted (f ∷ fs) = place_name-Sorted f (sort_names fs) (sort_names-Sorted fs)

pub sort_names-All : (P : List ℕ → Type 0) (fs : List (List ℕ)) → All P fs → All P (sort_names fs)
unfolding sort_names
sort_names-All P [] h = tt
sort_names-All P (f ∷ fs) (h, hs) = place_name-All P f (sort_names fs) h (sort_names-All P fs hs)

place_name-In : (x f : List ℕ) (fs : List (List ℕ)) → In x (f ∷ fs) → In x (place_name f fs)
unfolding place_name
place_name-In x f [] h = h
place_name-In x f (g ∷ fs) h = by_test (before f g) h (place_name-In x f fs)
  where
    by_test :
        (b : Bool)
        → In x (f ∷ g ∷ fs)
        → (In x (f ∷ fs) → In x (place_name f fs))
        → In x (if b then f ∷ g ∷ fs else g ∷ place_name f fs)
    by_test true h later = h
    by_test false (inl e) later = inr (later (inl e))
    by_test false (inr (inl e)) later = inl e
    by_test false (inr (inr i)) later = inr (later (inr i))

pub sort_names-In : (x : List ℕ) (fs : List (List ℕ)) → In x fs → In x (sort_names fs)
unfolding sort_names
sort_names-In x [] h = h
sort_names-In x (f ∷ fs) (inl e) = place_name-In x f (sort_names fs) (inl e)
sort_names-In x (f ∷ fs) (inr i) = place_name-In x f (sort_names fs) (inr (sort_names-In x fs i))
