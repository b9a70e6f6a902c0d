-- ===== src/Images/Tags.antt =====
-- src/tagClassifier.ts: tags as code points. Numbers are exact here; the source's are floats.
mod Examples
pub mod Order
pub mod Chains
use signalk_doctor_server.Common.{
  ℕ, Bool, true, ◌&&◌, ◌||◌, not, Option, none, some, List, [], ◌∷◌, String, if◌then◌else◌, ltb,
  leb, ◌==◌, all, length, drop, map, option_bind, is_some,
}
use signalk_doctor_server.Common.Text.{
  codes, trim, read_number, read_char, codes_eq, lower, is_digit, starts, contains_i, is_nil,
}

-- src/types.ts
pub data Channel : Type 0 where
  stable beta master dirkwa : Channel

-- The groups of SEMVER_RE; the prerelease is `beta.<n>` or `rc.<n>` as it is written.
pub record Semver : Type 0 where
  pub major : ℕ
  pub minor : ℕ
  pub patch : ℕ
  pub pre : Option (List ℕ)

-- `\d+$`
abbrev all_digits : List ℕ → Bool
all_digits text = not (is_nil text) && all is_digit text

-- `(beta|rc)\.(\d+)$` under the flag `i`.
is_pre : List ℕ → Bool
unfolding starts
is_pre text =
    (starts (codes "beta.") (map lower text) && all_digits (drop 5 text))
    || (starts (codes "rc.") (map lower text) && all_digits (drop 3 text))

read_pre : List ℕ → Option (Option (List ℕ))
unfolding is_pre
read_pre [] = some none
read_pre (c ∷ text) = if c == b'-' && is_pre text then some (some text) else none

skip_v : List ℕ → List ℕ
skip_v [] = []
skip_v (c ∷ text) = if lower c == b'v' then text else c ∷ text

infixl 5 ◌>>=◌
abbrev ◌>>=◌ {ℓ κ} : {A : Type ℓ} {B : Type κ} → Option A → (A → Option B) → Option B
m >>= f = option_bind m f

-- SEMVER_RE
unfoldable pub match_semver : List ℕ → Option Semver
unfolding skip_v read_number read_pre
match_semver tag = do
  (x, after_x) ← read_number (skip_v tag)
  (y, after_y) ← read_number (← read_char b'.' after_x)
  (z, after_z) ← read_number (← read_char b'.' after_y)
  p ← read_pre after_z
  some (record { major = x; minor = y; patch = z; pre = p })

unfoldable pub is_semver_tag : List ℕ → Bool
unfolding match_semver
is_semver_tag tag = is_some (match_semver tag)

abbrev is_hex : ℕ → Bool
is_hex c = is_digit c || (leb b'a' (lower c) && leb (lower c) b'f')

-- `(-[0-9a-f]{4,40})?$`
is_sha : List ℕ → Bool
is_sha [] = true
is_sha (c ∷ text) = c == b'-' && leb 4 (length text) && leb (length text) 40 && all is_hex text

is_branch : List ℕ → List ℕ → Bool
unfolding starts is_sha
is_branch name text = starts name (map lower text) && is_sha (drop (length name) text)

channel_of : List ℕ → Option Semver → Channel
unfolding is_branch contains_i
channel_of text none =
    if is_branch (codes "master") text || is_branch (codes "main") text then master else dirkwa
channel_of text (some v) =
    if contains_i (codes "-beta.") text || contains_i (codes "-rc.") text then beta else stable

unfoldable pub classify_channel : String → Channel
unfolding channel_of match_semver trim
classify_channel tag =
    let text = trim (codes tag) in
    if is_nil text then dirkwa else channel_of text (match_semver text)

-- The sign of a comparison: the first is newer, or older, or neither.
pub data Compared : Type 0 where
  newer older level : Compared

abbrev pub compare_numbers : ℕ → ℕ → Compared → Compared
compare_numbers a b rest = if a == b then rest else if ltb a b then older else newer

-- `localeCompare` is an argument.
compare_pre : (List ℕ → List ℕ → Compared) → Option (List ℕ) → Option (List ℕ) → Compared
compare_pre locale_compare none none = level
compare_pre locale_compare none (some b) = newer
compare_pre locale_compare (some a) none = older
compare_pre locale_compare (some a) (some b) = if codes_eq a b then level else locale_compare a b

unfoldable pub compare_matched : (List ℕ → List ℕ → Compared) → Semver → Semver → Compared
unfolding compare_pre
compare_matched locale_compare a b = compare_numbers a.major b.major (
    compare_numbers a.minor b.minor
      (compare_numbers a.patch b.patch (compare_pre locale_compare a.pre b.pre)))

both : (List ℕ → List ℕ → Compared) → Option Semver → Option Semver → Compared
unfolding compare_matched
both locale_compare (some a) (some b) = compare_matched locale_compare a b
both locale_compare none b = level
both locale_compare (some a) none = level

unfoldable pub compare_semver : (List ℕ → List ℕ → Compared) → List ℕ → List ℕ → Compared
unfolding both match_semver
compare_semver locale_compare a b = both locale_compare (match_semver a) (match_semver b)
