-- ===== src/Images/Tags/Order.antt =====
-- The comparison of tags has two sides that agree.
use signalk_doctor_server.Common.{
  ℕ, ◌≡◌, refl, Bool, true, false, Option, none, some, List, [], ◌∷◌, arith, if◌then◌else◌,
}
use signalk_doctor_server.Common.Text.{codes_eq}
use signalk_doctor_server.Images.Tags.{
  Semver, Compared, newer, older, level, compare_numbers, compare_pre, compare_matched, both,
  match_semver, compare_semver,
}

abbrev pub flip : Compared → Compared
flip newer = older
flip older = newer
flip level = level

codes_eq_comm : (a b : List ℕ) → codes_eq a b ≡ codes_eq b a
unfolding codes_eq
codes_eq_comm [] [] = refl
codes_eq_comm [] (d ∷ t) = refl
codes_eq_comm (c ∷ s) [] = refl
codes_eq_comm (c ∷ s) (d ∷ t) = ground (codes_eq_comm s t, arith)

compare_numbers-flip :
    (a b : ℕ) (x y : Compared) → y ≡ flip x → compare_numbers b a y ≡ flip (compare_numbers a b x)
compare_numbers-flip a b x y e = ground (arith, e)

module _ (locale_compare : List ℕ → List ℕ → Compared) where
  abbrev pub Flips : Type 0
  Flips = (a b : List ℕ) → locale_compare b a ≡ flip (locale_compare a b)

  compare_pre-flip :
      (p q : Option (List ℕ))
      → Flips
      → compare_pre locale_compare q p ≡ flip (compare_pre locale_compare p q)
  unfolding compare_pre
  compare_pre-flip none none f = refl
  compare_pre-flip none (some b) f = refl
  compare_pre-flip (some a) none f = refl
  compare_pre-flip (some a) (some b) f = rw (codes_eq_comm b a) (pick (codes_eq a b))
    where
      pick :
          (x : Bool)
          → (if x then level else locale_compare b a)
            ≡ flip (if x then level else locale_compare a b)
      pick true = refl
      pick false = f a b

  compare_matched-flip :
      (a b : Semver)
      → Flips
      → compare_matched locale_compare b a ≡ flip (compare_matched locale_compare a b)
  unfolding compare_matched
  compare_matched-flip a b f = compare_numbers-flip a.major b.major _ _ (
      compare_numbers-flip a.minor b.minor _ _
        (compare_numbers-flip a.patch b.patch _ _ (compare_pre-flip a.pre b.pre f)))

  -- Of two tags one is newer exactly if the other is older, and neither is exactly if the other is
  -- not either, where that holds of the text comparison.
  pub compare_semver-flip :
      (a b : List ℕ)
      → Flips
      → compare_semver locale_compare b a ≡ flip (compare_semver locale_compare a b)
  unfolding compare_semver both
  compare_semver-flip a b f = by_match (match_semver a) (match_semver b)
    where
      by_match : (p q : Option Semver) → both locale_compare q p ≡ flip (both locale_compare p q)
      by_match none none = refl
      by_match none (some b) = refl
      by_match (some a) none = refl
      by_match (some a) (some b) = compare_matched-flip a b f
