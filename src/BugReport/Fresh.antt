-- ===== src/BugReport/Fresh.antt =====
-- What the prune keeps, and which tarball a run reports.
use signalk_doctor_server.Common.{
  ℕ, ◌-◌, ◌≡◌, refl, ap, inl, inr, Bool, true, false, ◌&&◌, ◌||◌, not, some, List, [], ◌∷◌, arith,
  if◌then◌else◌, leb, any, filter, length, take, In, leb→le, Bool-cases,
}
use signalk_doctor_server.Common.Text.{codes_eq, codes_eq_sound}
use signalk_doctor_server.BugReport.{list_tarballs, remove_all, prune_old_reports}

-- A name is among the names.
abbrev pub has : List ℕ → List (List ℕ) → Bool
has f = any (codes_eq f)

has-filter_ne :
    (f old : List ℕ) (names : List (List ℕ))
    → has f (filter (λ n. not (codes_eq n old)) names) ≡ has f names && not (codes_eq f old)
has-filter_ne f old [] = refl
has-filter_ne f old (n ∷ names) =
    by_tests (codes_eq n old) (codes_eq f n) refl (has-filter_ne f old names)
      (λ e. ap (λ x. codes_eq x old) (codes_eq_sound f n e))
  where
    by_tests :
        (a b : Bool)
        → codes_eq f n ≡ b
        → has f (filter (λ n. not (codes_eq n old)) names) ≡ has f names && not (codes_eq f old)
        → (b ≡ true → codes_eq f old ≡ a)
        → has f (elim (not a) [
          | true ↦ n ∷ filter (λ n. not (codes_eq n old)) names
          | false ↦ filter (λ n. not (codes_eq n old)) names
        ])
          ≡ (b || has f names) && not (codes_eq f old)
    by_tests true true t ih e = ground (t, ih, e refl, arith)
    by_tests true false t ih e = ground (t, ih, arith)
    by_tests false true t ih e = ground (t, ih, e refl, arith)
    by_tests false false t ih e = ground (t, ih, arith)

has-remove_all :
    (fails : List ℕ → Bool) (f : List ℕ) (olds names : List (List ℕ))
    → has f (remove_all fails olds names) ≡ has f names && not (has f olds && not (fails f))
unfolding remove_all
has-remove_all fails f [] names = ground arith
has-remove_all fails f (old ∷ olds) names =
    by_tests (fails old) (codes_eq f old) (λ e. ap fails (codes_eq_sound f old e))
      (has-remove_all fails f olds names)
      (has-remove_all fails f olds (filter (λ n. not (codes_eq n old)) names))
      (has-filter_ne f old names)
  where
    by_tests :
        (b e : Bool)
        → (e ≡ true → fails f ≡ b)
        → has f (remove_all fails olds names) ≡ has f names && not (has f olds && not (fails f))
        → has f (remove_all fails olds (filter (λ n. not (codes_eq n old)) names))
          ≡ has f (filter (λ n. not (codes_eq n old)) names) && not (has f olds && not (fails f))
        → has f (filter (λ n. not (codes_eq n old)) names) ≡ has f names && not e
        → has f
            (remove_all fails olds (if b then names else filter (λ n. not (codes_eq n old)) names))
          ≡ has f names && not ((e || has f olds) && not (fails f))
    by_tests true true same p q r = ground (p, same refl, arith)
    by_tests true false same p q r = ground (p, arith)
    by_tests false true same p q r = ground (q, r, same refl, arith)
    by_tests false false same p q r = ground (q, r, arith)

-- The oldest tarballs, beyond the newest that are to be kept.
abbrev pub surplus : ℕ → List (List ℕ) → List (List ℕ)
surplus keep names = take (length (list_tarballs (some names)) - keep) (list_tarballs (some names))

-- A prune takes away exactly the oldest tarballs beyond the newest to be kept, but for those whose
-- removal fails, and no other file.
pub prune_old_reports_exact :
    (fails : List ℕ → Bool) (keep : ℕ) (names : List (List ℕ)) (f : List ℕ)
    → has f (prune_old_reports fails keep names)
      ≡ has f names && not (has f (surplus keep names) && not (fails f))
unfolding prune_old_reports
prune_old_reports_exact fails keep names f = by_test (length (list_tarballs (some names))) refl
  where
    by_test :
        (n : ℕ)
        → length (list_tarballs (some names)) ≡ n
        → has f (
            if leb n keep
            then names
            else remove_all fails
                (take (length (list_tarballs (some names)) - keep) (list_tarballs (some names)))
                names)
          ≡ has f names && not (has f (surplus keep names) && not (fails f))
    by_test n e = elim (Bool-cases (leb n keep)) [
      | inl few ↦
          let zero_more : length (list_tarballs (some names)) - keep ≡ 0 =
            omega (arith, e, leb→le n keep few) in
          rw few (rw zero_more (ground arith))
      | inr many ↦ rw many (has-remove_all fails f (surplus keep names) names)
    ]

includes_names : (f : List ℕ) (names : List (List ℕ)) → has f names ≡ true → In f names
includes_names f [] h = cc
includes_names f (n ∷ names) h = elim (Bool-cases (codes_eq f n)) [
  | inl e ↦ inl (codes_eq_sound f n e)
  | inr e ↦ inr (includes_names f names (ground (h, e, arith)))
]
