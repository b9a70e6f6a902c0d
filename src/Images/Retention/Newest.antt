-- ===== src/Images/Retention/Newest.antt =====
-- The versions are sorted newest first.
use signalk_doctor_server.Common.{
  ℕ, ◌≡◌, refl, ap, ◌∙◌, Bool, true, false, some, List, [], ◌∷◌, if◌then◌else◌, All,
}
use signalk_doctor_server.Images.Tags.{
  Semver, Compared, newer, older, level, match_semver, compare_semver,
}
use signalk_doctor_server.Images.Tags.Order.{flip, Flips, compare_semver-flip}
use signalk_doctor_server.Images.Tags.Chains.{not_older, IsTransitive, compare_semver-Chains}
use signalk_doctor_server.Images.Retention.{TaggedImage, comes_first, place, sort_newest_first}

abbrev pub IsVersion : TaggedImage → Type 0
IsVersion t = (v : Semver) × (match_semver t.tag ≡ some v)

module _ (locale_compare : List ℕ → List ℕ → Compared) where
  -- Each version is at least as new as all that come after it.
  abbrev pub NewestFirst : List TaggedImage → Type 0
  NewestFirst [] = Unit
  NewestFirst (t ∷ rest) =
      All (λ u. not_older (compare_semver locale_compare t.tag u.tag) ≡ true) rest
      × NewestFirst rest

  place-All :
      (P : TaggedImage → Type 0) (t : TaggedImage) (ts : List TaggedImage)
      → P t
      → All P ts
      → All P (place locale_compare t ts)
  unfolding place
  place-All P t [] h hs = (h, tt)
  place-All P t (u ∷ rest) h (hu, hs) =
      pick (comes_first locale_compare t u) (place-All P t rest h hs)
    where
      pick :
          (b : Bool)
          → All P (place locale_compare t rest)
          → All P (if b then t ∷ u ∷ rest else u ∷ place locale_compare t rest)
      pick true later = (h, (hu, hs))
      pick false later = (hu, later)

  through :
      (t u : TaggedImage) (ts : List TaggedImage)
      → IsTransitive locale_compare
      → IsVersion u
      → not_older (compare_semver locale_compare t.tag u.tag) ≡ true
      → All (λ x. not_older (compare_semver locale_compare u.tag x.tag) ≡ true) ts
      → All (λ x. not_older (compare_semver locale_compare t.tag x.tag) ≡ true) ts
  through t u [] trans v h hs = tt
  through t u (x ∷ ts) trans (v, is) h (hx, hs) = (
    compare_semver-Chains locale_compare t.tag u.tag x.tag v trans is h hx,
    through t u ts trans (v, is) h hs,
  )

  other_side : (x : Compared) → not_older x ≡ false → not_older (flip x) ≡ true
  other_side older h = refl
  other_side newer h = cc
  other_side level h = cc

  place-NewestFirst :
      (t : TaggedImage) (ts : List TaggedImage)
      → Flips locale_compare
      → IsTransitive locale_compare
      → All IsVersion ts
      → NewestFirst ts
      → NewestFirst (place locale_compare t ts)
  unfolding place
  place-NewestFirst t [] flips trans vs h = (tt, tt)
  place-NewestFirst t (u ∷ rest) flips trans (v, vs) (after, h) =
      pick (not_older (compare_semver locale_compare t.tag u.tag)) refl
        (place-NewestFirst t rest flips trans vs h)
    where
      pick :
          (b : Bool)
          → not_older (compare_semver locale_compare t.tag u.tag) ≡ b
          → NewestFirst (place locale_compare t rest)
          → NewestFirst (if b then t ∷ u ∷ rest else u ∷ place locale_compare t rest)
      pick true e later = ((e, through t u rest trans v e after), (after, h))
      pick false e later =
          let first : not_older (compare_semver locale_compare u.tag t.tag) ≡ true =
            ap not_older (compare_semver-flip locale_compare t.tag u.tag flips)
            ∙ other_side (compare_semver locale_compare t.tag u.tag) e in
          (
            place-All (λ x. not_older (compare_semver locale_compare u.tag x.tag) ≡ true) t rest
                first after,
            later,
          )

  sort-All :
      (P : TaggedImage → Type 0) (ts : List TaggedImage)
      → All P ts
      → All P (sort_newest_first locale_compare ts)
  unfolding sort_newest_first
  sort-All P [] h = tt
  sort-All P (t ∷ rest) (h, hs) =
      place-All P t (sort_newest_first locale_compare rest) h (sort-All P rest hs)

  -- Sorted, each version is at least as new as all that come after it, where the text comparison
  -- agrees from both its sides and "not older" is transitive for it.
  pub sort_newest_first-NewestFirst :
      (ts : List TaggedImage)
      → Flips locale_compare
      → IsTransitive locale_compare
      → All IsVersion ts
      → NewestFirst (sort_newest_first locale_compare ts)
  unfolding sort_newest_first
  sort_newest_first-NewestFirst [] flips trans vs = tt
  sort_newest_first-NewestFirst (t ∷ rest) flips trans (v, vs) =
      place-NewestFirst t (sort_newest_first locale_compare rest) flips trans
        (sort-All IsVersion rest vs) (sort_newest_first-NewestFirst rest flips trans vs)
