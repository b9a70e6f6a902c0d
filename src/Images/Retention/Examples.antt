-- ===== src/Images/Retention/Examples.antt =====
-- A prune of three versions, the newest of which is `latest`.
use signalk_doctor_server.Common.{
  ℕ, ◌≡◌, refl, ◌⊎◌, inl, Bool, true, false, none, List, [], ◌∷◌, ◌++◌, String, filter, In,
}
use signalk_doctor_server.Images.Tags.{
  Compared, level, is_semver_tag, match_semver, compare_semver, compare_matched,
}
use signalk_doctor_server.Images.Retention.{
  Row, image_info, malformed, absent, TaggedImage, keep_of, rolling_ids, sort_newest_first,
  keep_newest, protected_ids, sweep, prune_old_images_for, collect, split_last, repo_matches,
}
use signalk_doctor_server.Common.Text.{codes}
use signalk_doctor_server.Images.Tags.Order.{Flips}
use signalk_doctor_server.Images.Tags.Chains.{IsTransitive}
use signalk_doctor_server.Images.Retention.Protected.{IsSpent}
use signalk_doctor_server.Images.Retention.Safety.{
  rolling_tags, tagged, pruned, ids, removed-IsSpent,
}

abbrev by_order : List ℕ → List ℕ → Compared
by_order a b = level

abbrev version : String → TaggedImage
version tag = record { repo_tag = tag; tag = codes tag; id = tag; created = 0 }

by_order-Flips : Flips by_order
by_order-Flips a b = refl

by_order-IsTransitive : IsTransitive by_order
by_order-IsTransitive a b c p q = refl

abbrev always : String → ℕ → Bool × ℕ
always tag w = (true, w)

abbrev rows : List Row
rows =
    image_info "a" ("r:1.0.0" ∷ []) 1
    ∷ malformed
    ∷ image_info "b" ("r:1.1.0" ∷ []) 2
    ∷ image_info "c" ("r:1.2.0" ∷ "r:latest" ∷ "other:1.0.0" ∷ []) 3
    ∷ []

old_removed : In "r:1.0.0" (pruned always by_order "r" absent [] rows none 0).removed
unfolding prune_old_images_for collect split_last repo_matches
    signalk_doctor_server.Common.Text.codes_eq signalk_doctor_server.Common.Text.starts
    protected_ids rolling_ids keep_newest sort_newest_first keep_of compare_semver compare_matched
    is_semver_tag match_semver signalk_doctor_server.Common.Text.read_number sweep
old_removed = inl refl

removed-IsSpent_example :
    (t : TaggedImage) × In t (tagged always by_order "r" absent [] rows none)
    × (t.repo_tag ≡ "r:1.0.0")
    × ((is_semver_tag t.tag ≡ false)
        ⊎ IsSpent 1
            ([] ++ rolling_ids (rolling_tags []) (tagged always by_order "r" absent [] rows none))
            (sort_newest_first by_order
              (filter (λ u. is_semver_tag u.tag) (tagged always by_order "r" absent [] rows none)))
            t
            (ids always by_order "r" absent [] rows none))
unfolding keep_of
removed-IsSpent_example =
    removed-IsSpent always by_order "r" absent [] rows none 0 "r:1.0.0" old_removed

kept_two :
    (pruned always by_order "r" absent [] rows none 0).kept
    ≡ "r:1.1.0" ∷ "r:1.2.0" ∷ "r:latest" ∷ []
unfolding prune_old_images_for collect split_last repo_matches
    signalk_doctor_server.Common.Text.codes_eq signalk_doctor_server.Common.Text.starts
    protected_ids rolling_ids keep_newest sort_newest_first keep_of compare_semver compare_matched
    is_semver_tag match_semver signalk_doctor_server.Common.Text.read_number sweep
kept_two = refl
