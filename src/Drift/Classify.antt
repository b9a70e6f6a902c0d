-- ===== src/Drift/Classify.antt =====
-- src/drift/classify.ts: the gap between two versions. Numbers are exact here; the source's are
-- floats, exact up to 2 ^ 53.
mod Examples
pub mod Order
use signalk_doctor_server.Common.{
  ℕ, Bool, true, false, ◌&&◌, ◌||◌, Option, none, some, List, [], ◌∷◌, String, if◌then◌else◌, ltb,
  ◌==◌, all, option_bind,
}
use signalk_doctor_server.Common.Text.{codes, trim, read_number, read_char, is_word, codes_eq}
use signalk_doctor_server.Drift.Types.{
  DriftClassification, up_to_date, patch, minor, major, prerelease, unknown,
}

pub record Parsed : Type 0 where
  pub major_part : ℕ
  pub minor_part : ℕ
  pub patch_part : ℕ
  pub prerelease_part : Option (List ℕ)

-- `[\w.+-]`
abbrev is_prerelease_char : ℕ → Bool
is_prerelease_char c = is_word c || c == b'.' || c == b'+' || c == b'-'

-- `(?:-([\w.+-]+))?$`
read_prerelease : List ℕ → Option (Option (List ℕ))
read_prerelease [] = some none
read_prerelease (c ∷ []) = none
read_prerelease (c ∷ d ∷ text) =
    if c == b'-' && all is_prerelease_char (d ∷ text) then some (some (d ∷ text)) else none

skip_v : List ℕ → List ℕ
skip_v [] = []
skip_v (c ∷ text) = if c == b'v' then text else c ∷ text

infixl 5 ◌>>=◌
abbrev ◌>>=◌ {ℓ κ} : {A : Type ℓ} {B : Type κ} → Option A → (A → Option B) → Option B
m >>= f = option_bind m f

-- SEMVER_RE on the text after `v?`
read_version : List ℕ → Option Parsed
unfolding read_number read_prerelease
read_version text = do
  (x, after_x) ← read_number text
  (y, after_y) ← read_number (← read_char b'.' after_x)
  (z, after_z) ← read_number (← read_char b'.' after_y)
  pre ← read_prerelease after_z
  some (record { major_part = x; minor_part = y; patch_part = z; prerelease_part = pre })

unfoldable pub parse : String → Option Parsed
unfolding read_version skip_v trim
parse v = read_version (skip_v (trim (codes v)))

abbrev pub same_prerelease : Option (List ℕ) → Option (List ℕ) → Bool
same_prerelease none none = true
same_prerelease (some a) (some b) = codes_eq a b
same_prerelease none (some b) = false
same_prerelease (some a) none = false

-- `classify` once both versions are parsed: `a` installed, `b` latest.
unfoldable pub classify_parsed : Parsed → Parsed → DriftClassification
classify_parsed a b =
    if a.major_part == b.major_part && a.minor_part == b.minor_part && a.patch_part == b.patch_part
    then if same_prerelease a.prerelease_part b.prerelease_part then up_to_date else prerelease
    else if ltb a.major_part b.major_part
    then major
    else if b.major_part == a.major_part && ltb a.minor_part b.minor_part
    then minor
    else if b.major_part == a.major_part
        && b.minor_part == a.minor_part
        && ltb a.patch_part b.patch_part
    then patch
    else up_to_date

both : Option Parsed → Option Parsed → DriftClassification
unfolding classify_parsed
both (some a) (some b) = classify_parsed a b
both none b = unknown
both (some a) none = unknown

unfoldable pub classify : String → String → DriftClassification
unfolding parse both
classify installed latest = both (parse installed) (parse latest)
