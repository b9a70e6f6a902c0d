-- ===== src/Images/Retention/Safety.antt =====
-- pruneOldImagesFor as a whole.
use signalk_doctor_server.Common.{
  ℕ, ◌+◌, ◌≡◌, refl, ◌⊎◌, inl, inr, Bool, true, false, Option, some, List, ◌∷◌, ◌++◌, String,
  filter, length, In,
}
use signalk_doctor_server.Common.Text.{codes}
use signalk_doctor_server.Images.Tags.{Compared, is_semver_tag}
use signalk_doctor_server.Images.Retention.{
  Row, KeepOption, keep_of, TaggedImage, RetentionResult, collect, has_id, running_ids, rolling_ids,
  sort_newest_first, protected_ids, prune_old_images_for,
}
use signalk_doctor_server.Images.Retention.Protected.{
  IsSpent, keep_newest-IsSpent, In-filter, In-sort_newest_first,
}
use signalk_doctor_server.Images.Retention.Sweep.{
  repo_tags, protected_of, rest_of, sweep-Accounts, sweep-removed,
}

abbrev pub rolling_tags : List String → List String
rolling_tags protect_tags = "latest" ∷ "dirkwa" ∷ protect_tags

module _ {W : Type 0} (remove : String → W → Bool × W) (locale_compare : List ℕ → List ℕ → Compared)
    (name : String) (keep : KeepOption) (protect_tags : List String) (rows : List Row)
    (running : Option String) where
  abbrev pub tagged : List TaggedImage
  tagged = collect (codes name) rows

  abbrev pub pruned : W → RetentionResult
  pruned w =
      (prune_old_images_for remove locale_compare name keep protect_tags (some rows) running w).0

  abbrev pub ids : List String
  ids = protected_ids locale_compare (keep_of keep) (rolling_tags protect_tags) running tagged

  -- A removed version leaves the whole rollback budget: `keep` more ids are kept, each different
  -- from the needed ones and from the others, and each of a version that the sort puts before it.
  pub removed-IsSpent :
      (w : W) (r : String)
      → In r (pruned w).removed
      → (t : TaggedImage) × In t tagged
        × (t.repo_tag ≡ r)
        × ((is_semver_tag t.tag ≡ false)
            ⊎ IsSpent
                (keep_of keep)
                (running_ids running ++ rolling_ids (rolling_tags protect_tags) tagged)
                (sort_newest_first locale_compare (filter (λ u. is_semver_tag u.tag) tagged))
                t
                ids)
  unfolding prune_old_images_for protected_ids
  removed-IsSpent w r m =
      let (t, within, same, free) = sweep-removed remove ids tagged w r m in
      (t, within, same, either t within free (is_semver_tag t.tag) refl)
    where
      sorted : List TaggedImage
      sorted = sort_newest_first locale_compare (filter (λ u. is_semver_tag u.tag) tagged)

      base : List String
      base = running_ids running ++ rolling_ids (rolling_tags protect_tags) tagged

      either :
          (t : TaggedImage)
          → In t tagged
          → has_id t.id ids ≡ false
          → (b : Bool) → is_semver_tag t.tag ≡ b
          → (is_semver_tag t.tag ≡ false) ⊎ IsSpent (keep_of keep) base sorted t ids
      either t within free false e = inl e
      either t within free true e = inr (
          keep_newest-IsSpent (keep_of keep) base sorted t
            (In-sort_newest_first locale_compare t (filter (λ u. is_semver_tag u.tag) tagged)
              (In-filter (λ u. is_semver_tag u.tag) t tagged within e))
            free)

  -- The prune accounts for every tag of the repository: the kept are those with a protected image,
  -- in order, and each other is removed or skipped, once.
  pub pruned_accounts :
      (w : W)
      → ((pruned w).kept ≡ repo_tags (protected_of ids tagged))
        × (length (pruned w).removed + length (pruned w).skipped ≡ length (rest_of ids tagged))
  unfolding prune_old_images_for
  pruned_accounts w = sweep-Accounts remove ids tagged w
