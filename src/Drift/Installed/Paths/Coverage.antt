-- ===== src/Drift/Installed/Paths/Coverage.antt =====
-- Which candidates there are.
use signalk_doctor_server.Common.{
  ℕ, zero, suc, ◌≤◌, ◌≡◌, ◌≢◌, refl, ap, inl, inr, true, false, List, [], ◌∷◌, ◌++◌, String, str_eq,
  eq_iff, arith, ◌^^◌, if◌then◌else◌, leb, leb→le, any, length, take, In, Bool-cases,
}
use signalk_doctor_server.Common.Text.{apart}
use signalk_doctor_server.Drift.Installed.Paths.{
  Target, app_dir_root, candidate, segments, path_of, ancestors, add_candidates, prefixes_of,
  image_candidate_paths,
}

In-append : (x : String) (xs ys : List String) → In x xs → In x (xs ++ ys)
In-append x [] ys m = elim m [ ]
In-append x (y ∷ xs) ys (inl e) = inl e
In-append x (y ∷ xs) ys (inr m) = inr (In-append x xs ys m)

In-last : (x : String) (xs : List String) → In x (xs ++ x ∷ [])
In-last x [] = inl refl
In-last x (y ∷ xs) = inr (In-last x xs)

In-any : (x : String) (xs : List String) → any (str_eq x) xs ≡ true → In x xs
In-any x [] h = cc
In-any x (y ∷ xs) h = elim (Bool-cases (str_eq x y)) [
  | inl e ↦ inl (ground (eq_iff x y, e, arith))
  | inr e ↦ inr (In-any x xs (ground (h, e, arith)))
]

any-append_last :
    (x y : String) (xs : List String)
    → any (str_eq y) xs ≡ false
    → x ≢ y
    → any (str_eq y) (xs ++ x ∷ []) ≡ false
any-append_last x y [] h d = ground (eq_iff y x, d, arith)
any-append_last x y (z ∷ xs) h d = ground (any-append_last x y xs, h, arith, d)

apart-append_last :
    (x : String) (xs : List String)
    → apart xs ≡ true
    → any (str_eq x) xs ≡ false
    → apart (xs ++ x ∷ []) ≡ true
apart-append_last x [] h n = refl
apart-append_last x (y ∷ xs) h n =
    let differ : x ≢ y = λ e. ground (eq_iff x y, e, n, arith) in
    ground (
      any-append_last x y xs (ground (h, arith)) differ,
      apart-append_last x xs (ground (h, arith)) (ground (n, arith)),
      arith,
    )

module _ (name : String) where
  abbrev added : String → List String → List String
  added prefix out =
      if any (str_eq (candidate prefix name)) out then out else out ++ candidate prefix name ∷ []

  added-apart :
      (prefix : String) (out : List String) → apart out ≡ true → apart (added prefix out) ≡ true
  added-apart prefix out h = elim (Bool-cases (any (str_eq (candidate prefix name)) out)) [
    | inl e ↦ rw e h
    | inr e ↦ rw e (apart-append_last (candidate prefix name) out h e)
  ]

  added-In : (x prefix : String) (out : List String) → In x out → In x (added prefix out)
  added-In x prefix out m = elim (Bool-cases (any (str_eq (candidate prefix name)) out)) [
    | inl e ↦ rw e m
    | inr e ↦ rw e (In-append x out (candidate prefix name ∷ []) m)
  ]

  added_itself :
      (prefix : String) (out : List String) → In (candidate prefix name) (added prefix out)
  added_itself prefix out = elim (Bool-cases (any (str_eq (candidate prefix name)) out)) [
    | inl e ↦ rw e (In-any (candidate prefix name) out e)
    | inr e ↦ rw e (In-last (candidate prefix name) out)
  ]

  add_candidates-apart :
      (prefixes out : List String)
      → apart out ≡ true
      → apart (add_candidates name prefixes out) ≡ true
  unfolding add_candidates
  add_candidates-apart [] out h = h
  add_candidates-apart (p ∷ ps) out h = add_candidates-apart ps (added p out) (added-apart p out h)

  add_candidates-In :
      (x : String) (prefixes out : List String) → In x out → In x (add_candidates name prefixes out)
  unfolding add_candidates
  add_candidates-In x [] out m = m
  add_candidates-In x (p ∷ ps) out m = add_candidates-In x ps (added p out) (added-In x p out m)

  add_candidates_each :
      (prefix : String) (prefixes out : List String)
      → In prefix prefixes
      → In (candidate prefix name) (add_candidates name prefixes out)
  unfolding add_candidates
  add_candidates_each prefix [] out m = elim m [ ]
  add_candidates_each prefix (p ∷ ps) out (inl e) =
      rw e (add_candidates-In (candidate p name) ps (added p out) (added_itself p out))
  add_candidates_each prefix (p ∷ ps) out (inr m) = add_candidates_each prefix ps (added p out) m

ancestors-In :
    (i n : ℕ) (segs : List String) → i ≤ n → In (path_of (take i segs)) (ancestors n segs)
unfolding ancestors path_of
ancestors-In zero zero segs h = inl refl
ancestors-In (suc i) zero segs h = absurd (omega arith)
ancestors-In i (suc n) segs h = elim (Bool-cases (leb i n)) [
  | inl e ↦ inr (ancestors-In i n segs (leb→le i n e))
  | inr e ↦
      let last : i ≡ suc n = ground (e, h, arith) in inl (ap (λ k. path_of (take k segs)) last)
]

-- Each directory from one of the two bases up to the root is searched.
abbrev pub Covers : String → String → List String → Type 0
Covers base name paths =
    (i : ℕ)
    → i ≤ length (segments base)
    → In (candidate (path_of (take i (segments base))) name) paths

-- The image copy is looked for below every directory from the server's own tree and from the
-- install root up to the file system's root, and no path is read twice.
pub image_candidate_paths-Covers :
    (t : Target) (name : String)
    → Covers (app_dir_root t ^^ "/node_modules/signalk-server") name (image_candidate_paths t name)
      × Covers (app_dir_root t) name (image_candidate_paths t name)
      × (apart (image_candidate_paths t name) ≡ true)
unfolding image_candidate_paths
image_candidate_paths-Covers t name = (
  λ i h. add_candidates-In name _ (prefixes_of (app_dir_root t)) _ (
      add_candidates_each name _ (prefixes_of (app_dir_root t ^^ "/node_modules/signalk-server")) []
        (ancestors-In i _ (segments (app_dir_root t ^^ "/node_modules/signalk-server")) h)),
  λ i h.
      add_candidates_each name _ (prefixes_of (app_dir_root t)) _
        (ancestors-In i _ (segments (app_dir_root t)) h),
  add_candidates-apart name (prefixes_of (app_dir_root t)) _ (
      add_candidates-apart name (prefixes_of (app_dir_root t ^^ "/node_modules/signalk-server")) []
        refl),
)
