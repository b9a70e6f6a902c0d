-- ===== src/Images/Tags/Chains.antt =====
-- The comparison of versions is transitive.
use signalk_doctor_server.Common.{ℕ, ◌≡◌, refl, Bool, true, false, Option, none, some, List, arith}
use signalk_doctor_server.Common.Text.{codes_eq_sound}
use signalk_doctor_server.Images.Tags.{
  Semver, Compared, newer, older, level, compare_numbers, compare_pre, compare_matched, both,
  match_semver, compare_semver,
}

abbrev pub not_older : Compared → Bool
not_older older = false
not_older newer = true
not_older level = true

-- What the second step of a chain hands on.
abbrev pub Chains : Compared → Compared → Compared → Type 0
Chains x y z = not_older x ≡ true → not_older y ≡ true → not_older z ≡ true

compare_numbers-Chains :
    (a b c : ℕ) (x y z : Compared)
    → Chains x y z
    → Chains (compare_numbers a b x) (compare_numbers b c y) (compare_numbers a c z)
compare_numbers-Chains a b c x y z h p q = ground (arith, h)

module _ (locale_compare : List ℕ → List ℕ → Compared) where
  abbrev pub IsTransitive : Type 0
  IsTransitive =
      (a b c : List ℕ)
      → not_older (locale_compare a b) ≡ true
      → not_older (locale_compare b c) ≡ true
      → not_older (locale_compare a c) ≡ true

  compare_pre-Chains :
      (p q r : Option (List ℕ))
      → IsTransitive
      → Chains
          (compare_pre locale_compare p q)
          (compare_pre locale_compare q r)
          (compare_pre locale_compare p r)
  unfolding compare_pre
  compare_pre-Chains none q none t x y = refl
  compare_pre-Chains none q (some c) t x y = refl
  compare_pre-Chains (some a) none r t x y = cc
  compare_pre-Chains (some a) (some b) none t x y = cc
  compare_pre-Chains (some a) (some b) (some c) t x y =
      ground (t a b c, codes_eq_sound a b, codes_eq_sound b c, arith)

  compare_matched-Chains :
      (a b c : Semver)
      → IsTransitive
      → Chains
          (compare_matched locale_compare a b)
          (compare_matched locale_compare b c)
          (compare_matched locale_compare a c)
  unfolding compare_matched
  compare_matched-Chains a b c t = compare_numbers-Chains a.major b.major c.major _ _ _ (
      compare_numbers-Chains a.minor b.minor c.minor _ _ _ (
        compare_numbers-Chains a.patch b.patch c.patch _ _ _
          (compare_pre-Chains a.pre b.pre c.pre t)))

  pub compare_semver-Chains :
      (a b c : List ℕ) (v : Semver)
      → IsTransitive
      → match_semver b ≡ some v
      → Chains
          (compare_semver locale_compare a b)
          (compare_semver locale_compare b c)
          (compare_semver locale_compare a c)
  unfolding compare_semver both
  compare_semver-Chains a b c v t is =
      by_match (match_semver a) (match_semver b) (match_semver c) is
    where
      by_match :
          (p q r : Option Semver)
          → q ≡ some v
          → Chains (both locale_compare p q) (both locale_compare q r) (both locale_compare p r)
      by_match p none r e x y = cc
      by_match none (some b) none e x y = refl
      by_match none (some b) (some c) e x y = refl
      by_match (some a) (some b) none e x y = refl
      by_match (some a) (some b) (some c) e x y = compare_matched-Chains a b c t x y
