-- ===== src/Common/Text.antt =====
-- Text as its code points, for the patterns and parsers that look inside it.
use Prim.Native.Nat.{ℕ, ◌+◌, ◌-◌, ◌*◌}
use Prim.Native.Char.{code}
use Prim.Native.String.{String}
use mathlib.Core.Path.{◌≡◌, refl}
use native.Mathlib.Omega.{arith}
use mathlib.Core.Bool.{Bool, true, false, ◌&&◌, ◌||◌, not}
use text.Mathlib.Text.{◌==◌ as str_eq}
use mathlib.Core.Option.{Option, none, some}
use mathlib.Core.List.{List, [], ◌∷◌, map}
use signalk_doctor_server.Common.Tests.{leb, ◌==◌, if◌then◌else◌}
use signalk_doctor_server.Common.Lists.{any}

abbrev pub codes : String → List ℕ
codes String.[] = []
codes (String.◌∷◌ c s) = code c ∷ codes s

abbrev pub is_digit : ℕ → Bool
is_digit c = leb b'0' c && leb c b'9'

abbrev pub is_upper : ℕ → Bool
is_upper c = leb b'A' c && leb c b'Z'

abbrev pub lower : ℕ → ℕ
lower c = if is_upper c then c + 32 else c

-- `\w`
abbrev pub is_word : ℕ → Bool
is_word c = is_digit c || (leb b'a' (lower c) && leb (lower c) b'z') || c == b'_'

unfoldable pub starts : List ℕ → List ℕ → Bool
starts [] text = true
starts (p ∷ ps) [] = false
starts (p ∷ ps) (c ∷ text) = p == c && starts ps text

-- `/pattern/.test(text)` for a pattern of plain characters.
unfoldable pub contains : List ℕ → List ℕ → Bool
unfolding starts
contains pattern [] = starts pattern []
contains pattern (c ∷ text) = starts pattern (c ∷ text) || contains pattern text

-- The same under the flag `i`.
unfoldable pub contains_i : List ℕ → List ℕ → Bool
unfolding contains
contains_i pattern text = contains (map lower pattern) (map lower text)

-- What `trim()` takes off: white space and line ends.
abbrev pub is_space : ℕ → Bool
is_space c =
    (leb 9 c && leb c 13)
    || c == 32
    || c == 160
    || c == 0x1680
    || (leb 0x2000 c && leb c 0x200a)
    || c == 0x2028
    || c == 0x2029
    || c == 0x202f
    || c == 0x205f
    || c == 0x3000
    || c == 0xfeff

unfoldable pub trim_start : List ℕ → List ℕ
trim_start [] = []
trim_start (c ∷ text) = let rest = trim_start text in if is_space c then rest else c ∷ text

abbrev pub is_nil : List ℕ → Bool
is_nil [] = true
is_nil (d ∷ ds) = false

unfoldable pub trim_end : List ℕ → List ℕ
trim_end [] = []
trim_end (c ∷ text) = let rest = trim_end text in if is_space c && is_nil rest then [] else c ∷ rest

unfoldable pub trim : List ℕ → List ℕ
unfolding trim_start trim_end
trim text = trim_end (trim_start text)

-- `(\d+)` with `parseInt`: a number and what follows it; none without a digit.
unfoldable pub more_digits : ℕ → List ℕ → ℕ × List ℕ
more_digits acc [] = (acc, [])
more_digits acc (c ∷ text) =
    let rest = more_digits (acc * 10 + (c - b'0')) text in
    if is_digit c then rest else (acc, c ∷ text)

unfoldable pub read_number : List ℕ → Option (ℕ × List ℕ)
unfolding more_digits
read_number [] = none
read_number (c ∷ text) = if is_digit c then some (more_digits (c - b'0') text) else none

-- A given character.
abbrev pub read_char : ℕ → List ℕ → Option (List ℕ)
read_char p [] = none
read_char p (c ∷ text) = if p == c then some text else none

-- Equality of code lists.
unfoldable pub codes_eq : List ℕ → List ℕ → Bool
codes_eq [] [] = true
codes_eq [] (d ∷ t) = false
codes_eq (c ∷ s) [] = false
codes_eq (c ∷ s) (d ∷ t) = c == d && codes_eq s t

pub codes_eq_refl : (a : List ℕ) → codes_eq a a ≡ true
unfolding codes_eq
codes_eq_refl [] = refl
codes_eq_refl (c ∷ a) = ground (codes_eq_refl a, arith)

pub codes_eq_sound : (a b : List ℕ) → codes_eq a b ≡ true → a ≡ b
unfolding codes_eq
codes_eq_sound [] [] h = refl
codes_eq_sound [] (d ∷ t) h = cc
codes_eq_sound (c ∷ s) [] h = cc
codes_eq_sound (c ∷ s) (d ∷ t) h = ground (codes_eq_sound s t, arith)

-- No text stands twice in the list.
abbrev pub apart : List String → Bool
apart [] = true
apart (p ∷ ps) = not (any (str_eq p) ps) && apart ps

unfoldable pub in_front : ℕ → List (List ℕ) → List (List ℕ)
in_front c [] = (c ∷ []) ∷ []
in_front c (w ∷ ws) = (c ∷ w) ∷ ws

-- `split` at one character.
unfoldable pub split_codes : ℕ → List ℕ → List (List ℕ)
unfolding in_front
split_codes k [] = [] ∷ []
split_codes k (c ∷ s) = let rest = split_codes k s in if c == k then [] ∷ rest else in_front c rest

-- What `.` does not match.
abbrev pub is_line_end : ℕ → Bool
is_line_end c = c == 10 || c == 13 || c == 0x2028 || c == 0x2029

unfoldable pub strip_i : List ℕ → List ℕ → Option (List ℕ)
strip_i [] text = some text
strip_i (p ∷ ps) [] = none
strip_i (p ∷ ps) (c ∷ text) =
    let rest = strip_i ps text in if lower p == lower c then rest else none
