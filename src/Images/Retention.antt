-- ===== src/Images/Retention.antt =====
-- src/image-retention.ts, pruneOldImagesFor. The runtime removes tags on a world `W`; the list of
-- images and the inspection are arguments, `none` where there is no runtime or the call failed.
mod Examples
pub mod Protected
pub mod Sweep
pub mod Safety
pub mod Newest
use signalk_doctor_server.Common.{
  ℕ, zero, suc, ◌-◌, ◌^◌, Bool, true, false, ◌||◌, Option, none, some, List, [], ◌∷◌, ◌++◌, String,
  str_eq, if◌then◌else◌, leb, ◌==◌, any, filter, drop,
}
use signalk_doctor_server.Common.Text.{codes, codes_eq, starts}
use signalk_doctor_server.Images.Tags.{Compared, newer, older, level, is_semver_tag, compare_semver}

-- A row of `listImages`; `malformed` is one that isImageInfo refuses. Absent tags are an empty list.
pub data Row : Type 0 where
  malformed : Row
  image_info : (id : String) (repo_tags : List String) (created : ℕ) → Row

-- `opts.keep`: absent, a number from 0 up, or any other number.
pub data KeepOption : Type 0 where
  absent other : KeepOption
  count : ℕ → KeepOption

unfoldable pub keep_of : KeepOption → ℕ
keep_of absent = 1
keep_of other = 1
keep_of (count n) = if leb n (2 ^ 53 - 1) then n else 1

pub record TaggedImage : Type 0 where
  pub repo_tag : String
  pub tag : List ℕ
  pub id : String
  pub created : ℕ

pub record RetentionResult : Type 0 where
  pub removed : List String
  pub kept : List String
  pub skipped : List String

abbrev pub empty_result : RetentionResult
empty_result = record { removed = []; kept = []; skipped = [] }

-- Before and after the last `:`.
unfoldable pub split_last : List ℕ → Option (List ℕ × List ℕ)
split_last [] = none
split_last (c ∷ text) = elim (split_last text) [
  | some (repo, tag) ↦ some (c ∷ repo, tag)
  | none ↦ if c == b':' then some ([], text) else none
]

-- `prefix.replace(/^ghcr\.io\//, '')`
abbrev bare : List ℕ → List ℕ
bare name = if starts (codes "ghcr.io/") name then drop 8 name else name

unfoldable pub repo_matches : List ℕ → List ℕ → Bool
unfolding starts
repo_matches repo name =
    codes_eq repo name || codes_eq repo (bare name) || codes_eq repo (codes "ghcr.io/" ++ bare name)

tagged_at : List ℕ → String → String → ℕ → Option (List ℕ × List ℕ) → List TaggedImage
unfolding repo_matches
tagged_at name repo_tag id created none = []
tagged_at name repo_tag id created (some (repo, tag)) =
    if codes_eq tag (codes "<none>") || codes_eq repo (codes "<none>")
    then []
    else if repo_matches repo name
    then record { repo_tag = repo_tag; tag = tag; id = id; created = created } ∷ []
    else []

tags_of : List ℕ → String → ℕ → List String → List TaggedImage
unfolding tagged_at split_last
tags_of name id created [] = []
tags_of name id created (repo_tag ∷ rest) =
    tagged_at name repo_tag id created (split_last (codes repo_tag)) ++ tags_of name id created rest

unfoldable pub collect : List ℕ → List Row → List TaggedImage
unfolding tags_of
collect name [] = []
collect name (malformed ∷ rows) = collect name rows
collect name (image_info id repo_tags created ∷ rows) =
    tags_of name id created repo_tags ++ collect name rows

abbrev pub has_id : String → List String → Bool
has_id id = any λ i. str_eq i id

abbrev pub is_rolling : List String → TaggedImage → Bool
is_rolling protect_tags t = any (λ p. codes_eq (codes p) t.tag) protect_tags

-- (a) The running container's image; an empty id counts as none.
abbrev pub running_ids : Option String → List String
running_ids none = []
running_ids (some id) = if str_eq id "" then [] else id ∷ []

-- (b) The ids of the rolling tags.
unfoldable pub rolling_ids : List String → List TaggedImage → List String
rolling_ids protect_tags [] = []
rolling_ids protect_tags (t ∷ rest) =
    let ids = rolling_ids protect_tags rest in if is_rolling protect_tags t then t.id ∷ ids else ids

-- Comes `a` before `b`, newest first? Where neither is newer the order stays.
abbrev pub comes_first : (List ℕ → List ℕ → Compared) → TaggedImage → TaggedImage → Bool
comes_first locale_compare a b = elim (compare_semver locale_compare a.tag b.tag) [
  | older ↦ false
  | newer ↦ true
  | level ↦ true
]

place : (List ℕ → List ℕ → Compared) → TaggedImage → List TaggedImage → List TaggedImage
place locale_compare t [] = t ∷ []
place locale_compare t (u ∷ rest) =
    let later = place locale_compare t rest in
    if comes_first locale_compare t u then t ∷ u ∷ rest else u ∷ later

-- `sort`, which is stable: an insertion sort.
unfoldable pub sort_newest_first :
    (List ℕ → List ℕ → Compared) → List TaggedImage → List TaggedImage
unfolding place
sort_newest_first locale_compare [] = []
sort_newest_first locale_compare (t ∷ rest) =
    place locale_compare t (sort_newest_first locale_compare rest)

-- (c) The loop over the semver tags: `left` more ids may be kept for rollback.
unfoldable pub keep_newest : ℕ → List String → List TaggedImage → List String
keep_newest left ids [] = ids
keep_newest zero ids (t ∷ rest) = ids
keep_newest (suc left) ids (t ∷ rest) =
    let passed = keep_newest (suc left) ids rest in
    let taken = keep_newest left (t.id ∷ ids) rest in if has_id t.id ids then passed else taken

unfoldable pub protected_ids :
    (List ℕ → List ℕ → Compared) → ℕ → List String → Option String → List TaggedImage → List String
unfolding rolling_ids keep_newest sort_newest_first
protected_ids locale_compare keep protect_tags running tagged =
    keep_newest keep (running_ids running ++ rolling_ids protect_tags tagged)
      (sort_newest_first locale_compare (filter (λ t. is_semver_tag t.tag) tagged))

-- One round of the last loop, with the rest of it where the tag is kept and where it was tried.
note :
    {W : Type 0}
    → Bool
    → Bool
    → String
    → RetentionResult × W
    → RetentionResult × W
    → RetentionResult × W
note true removed tag (kept, w) tried = (record kept { kept = tag ∷ kept.kept }, w)
note false true tag kept (tried, w) = (record tried { removed = tag ∷ tried.removed }, w)
note false false tag kept (tried, w) = (record tried { skipped = tag ∷ tried.skipped }, w)

module _ {W : Type 0} (remove : String → W → Bool × W) where
  unfoldable pub sweep : List String → List TaggedImage → W → RetentionResult × W
  unfolding note
  sweep ids [] w = (empty_result, w)
  sweep ids (t ∷ rest) w =
      let (removed, w') = remove t.repo_tag w in
      note (has_id t.id ids) removed t.repo_tag (sweep ids rest w) (sweep ids rest w')

  unfoldable pub prune_old_images_for :
      (List ℕ → List ℕ → Compared)
      → String
      → KeepOption
      → List String
      → Option (List Row)
      → Option String
      → W
      → RetentionResult × W
  unfolding collect protected_ids sweep
  prune_old_images_for locale_compare name keep protect_tags none running w = (empty_result, w)
  prune_old_images_for locale_compare name keep protect_tags (some rows) running w =
      let tagged = collect (codes name) rows in
      sweep
        (protected_ids locale_compare (keep_of keep) ("latest" ∷ "dirkwa" ∷ protect_tags) running
          tagged)
        tagged w
