-- ===== src/BugReport/Candidates.antt =====
-- The tarballs of the directory, those that are new, and the last of them.
use signalk_doctor_server.Common.{
  ℕ, ◌≡◌, refl, ap, inl, inr, Bool, true, false, some, List, [], ◌∷◌, if◌then◌else◌, filter, All,
  All-In, In,
}
use signalk_doctor_server.BugReport.{is_tarball, before, list_tarballs, last_of, fresh_candidates}
use signalk_doctor_server.BugReport.Fresh.{has}
use signalk_doctor_server.BugReport.Sorting.{
  Sorted, before_refl, sort_names-Sorted, sort_names-All, sort_names-In,
}

-- A tarball of the directory.
abbrev pub IsListed : List (List ℕ) → List ℕ → Type 0
IsListed files f = In f files × (is_tarball f ≡ true)

all_included : (fs gs : List (List ℕ)) → ((f : List ℕ) → In f fs → In f gs) → All (λ f. In f gs) fs
all_included [] gs h = tt
all_included (f ∷ fs) gs h = (h f (inl refl), all_included fs gs (λ g i. h g (inr i)))

filter-IsListed :
    (fs gs : List (List ℕ)) → All (λ f. In f gs) fs → All (IsListed gs) (filter is_tarball fs)
filter-IsListed [] gs h = tt
filter-IsListed (f ∷ fs) gs (h, hs) = by_test (is_tarball f) refl (filter-IsListed fs gs hs)
  where
    by_test :
        (b : Bool)
        → is_tarball f ≡ b
        → All (IsListed gs) (filter is_tarball fs)
        → All
            (IsListed gs)
            (elim b [ true ↦ f ∷ filter is_tarball fs | false ↦ filter is_tarball fs ])
    by_test true e later = ((h, e), later)
    by_test false e later = later

In-filter : (f : List ℕ) (fs : List (List ℕ)) → IsListed fs f → In f (filter is_tarball fs)
In-filter f [] (i, t) = i
In-filter f (g ∷ fs) (i, t) =
    by_test (is_tarball g) refl i (λ e. ap is_tarball e) (λ k. In-filter f fs (k, t))
  where
    by_test :
        (b : Bool)
        → is_tarball g ≡ b
        → In f (g ∷ fs)
        → (f ≡ g → is_tarball f ≡ is_tarball g)
        → (In f fs → In f (filter is_tarball fs))
        → In f (elim b [ true ↦ g ∷ filter is_tarball fs | false ↦ filter is_tarball fs ])
    by_test true q (inl e) same later = inl e
    by_test true q (inr k) same later = inr (later k)
    by_test false q (inl e) same later = let p = same e in cc
    by_test false q (inr k) same later = later k

pub list_tarballs-All : (files : List (List ℕ)) → All (IsListed files) (list_tarballs (some files))
unfolding list_tarballs
list_tarballs-All files =
    sort_names-All (IsListed files) (filter is_tarball files)
      (filter-IsListed files files (all_included files files (λ f i. i)))

pub list_tarballs-In :
    (f : List ℕ) (files : List (List ℕ)) → IsListed files f → In f (list_tarballs (some files))
unfolding list_tarballs
list_tarballs-In f files h = sort_names-In f (filter is_tarball files) (In-filter f files h)

pub list_tarballs-Sorted : (files : List (List ℕ)) → Sorted (list_tarballs (some files))
unfolding list_tarballs
list_tarballs-Sorted files = sort_names-Sorted (filter is_tarball files)

module _ (old : List (List ℕ)) where
  pub fresh-All :
      (P : List ℕ → Type 0) (fs : List (List ℕ)) → All P fs → All P (fresh_candidates old fs)
  unfolding fresh_candidates
  fresh-All P [] h = tt
  fresh-All P (f ∷ fs) (h, hs) = by_test (has f old) (fresh-All P fs hs)
    where
      by_test :
          (b : Bool)
          → All P (fresh_candidates old fs)
          → All P (if b then fresh_candidates old fs else f ∷ fresh_candidates old fs)
      by_test true later = later
      by_test false later = (h, later)

  pub fresh_new : (fs : List (List ℕ)) → All (λ f. has f old ≡ false) (fresh_candidates old fs)
  unfolding fresh_candidates
  fresh_new [] = tt
  fresh_new (f ∷ fs) = by_test (has f old) refl (fresh_new fs)
    where
      by_test :
          (b : Bool)
          → has f old ≡ b
          → All (λ f. has f old ≡ false) (fresh_candidates old fs)
          → All
              (λ f. has f old ≡ false)
              (if b then fresh_candidates old fs else f ∷ fresh_candidates old fs)
      by_test true e later = later
      by_test false e later = (e, later)

  pub fresh-Sorted : (fs : List (List ℕ)) → Sorted fs → Sorted (fresh_candidates old fs)
  unfolding fresh_candidates
  fresh-Sorted [] h = tt
  fresh-Sorted (f ∷ fs) (after, h) = by_test (has f old) (fresh-Sorted fs h)
    where
      by_test :
          (b : Bool)
          → Sorted (fresh_candidates old fs)
          → Sorted (if b then fresh_candidates old fs else f ∷ fresh_candidates old fs)
      by_test true later = later
      by_test false later = (fresh-All (λ g. before f g ≡ true) fs after, later)

  pub fresh-In :
      (f : List ℕ) (fs : List (List ℕ))
      → In f fs
      → has f old ≡ false
      → In f (fresh_candidates old fs)
  unfolding fresh_candidates
  fresh-In f [] i n = i
  fresh-In f (g ∷ fs) i n =
      by_test (has g old) refl i (λ e. ap (λ x. has x old) e) (λ k. fresh-In f fs k n)
    where
      by_test :
          (b : Bool)
          → has g old ≡ b
          → In f (g ∷ fs)
          → (f ≡ g → has f old ≡ has g old)
          → (In f fs → In f (fresh_candidates old fs))
          → In f (if b then fresh_candidates old fs else g ∷ fresh_candidates old fs)
      by_test true q (inl e) same later = let p = same e in cc
      by_test true q (inr k) same later = later k
      by_test false q (inl e) same later = inl e
      by_test false q (inr k) same later = inr (later k)

pub last_newest :
    (fs : List (List ℕ)) (f : List ℕ)
    → Sorted fs
    → last_of fs ≡ some f
    → In f fs × All (λ g. before g f ≡ true) fs
unfolding last_of
last_newest [] f s e = cc
last_newest (g ∷ []) f s e = let same : f ≡ g = cc in (inl same, (rw same (before_refl g), tt))
last_newest (g ∷ h ∷ fs) f (after, s) e =
    let (i, all) = last_newest (h ∷ fs) f s e in
    (inr i, (All-In (λ x. before g x ≡ true) (h ∷ fs) after i, all))

pub last_there : (fs : List (List ℕ)) (x : List ℕ) → In x fs → (f : List ℕ) × (last_of fs ≡ some f)
unfolding last_of
last_there [] x i = elim i [ ]
last_there (f ∷ []) x i = (f, refl)
last_there (f ∷ g ∷ fs) x i = last_there (g ∷ fs) g (inl refl)
