-- ===== src/Common/Strings.antt =====
-- Texts that are cut and trimmed as texts.
use Prim.Native.Char.{Char, code}
use text.Mathlib.TextLemmas.{nil-append, cons-append}
use mathlib.Core.Path.{◌≡◌, ap, ◌∙◌}
use native.Mathlib.Omega.{arith}
use Prim.Native.Nat.{ℕ, zero, suc}
use Prim.Native.String.{String}
use mathlib.Core.Bool.{Bool, true, false, ◌&&◌, ◌||◌}
use mathlib.Core.Option.{Option, none, some}
use mathlib.Core.List.{List, [], ◌∷◌}
use signalk_doctor_server.Common.Tests.{if◌then◌else◌, ◌==◌, ◌^^◌}
use signalk_doctor_server.Common.Text.{is_space}

-- The last place of white space counts from the end: a text of spaces is empty.
unfoldable pub is_blank : String → Bool
is_blank String.[] = true
is_blank (String.◌∷◌ c s) = is_space (code c) && is_blank s

unfoldable pub drop_spaces : String → String
drop_spaces String.[] = ""
drop_spaces (String.◌∷◌ c s) =
    let rest = drop_spaces s in if is_space (code c) then rest else String.◌∷◌ c s

unfoldable pub drop_spaces_end : String → String
unfolding is_blank
drop_spaces_end String.[] = ""
drop_spaces_end (String.◌∷◌ c s) =
    let rest = String.◌∷◌ c (drop_spaces_end s) in if is_blank (String.◌∷◌ c s) then "" else rest

-- `s.trim()`
unfoldable pub trim_text : String → String
unfolding drop_spaces drop_spaces_end
trim_text s = drop_spaces_end (drop_spaces s)

-- The first n characters.
unfoldable pub take_text : ℕ → String → String
take_text zero s = ""
take_text (suc n) String.[] = ""
take_text (suc n) (String.◌∷◌ c s) = String.◌∷◌ c (take_text n s)

-- `startsWith(prefix)`, with what follows.
unfoldable pub strip_prefix : String → String → Option String
strip_prefix String.[] s = some s
strip_prefix (String.◌∷◌ p ps) String.[] = none
strip_prefix (String.◌∷◌ p ps) (String.◌∷◌ c s) =
    let rest = strip_prefix ps s in if code p == code c then rest else none

abbrev pub is_empty : String → Bool
is_empty String.[] = true
is_empty (String.◌∷◌ c s) = false

-- A text that is there and not empty, as a condition takes it.
abbrev pub truthy : Option String → Option String
truthy none = none
truthy (some String.[]) = none
truthy (some (String.◌∷◌ c s)) = some (String.◌∷◌ c s)

unfoldable pub has_char : ℕ → String → Bool
has_char k String.[] = false
has_char k (String.◌∷◌ c s) = code c == k || has_char k s

in_front : String → List String → List String
in_front c [] = c ∷ []
in_front c (w ∷ ws) = (c ^^ w) ∷ ws

-- `split` at one character.
unfoldable pub split_at : ℕ → String → List String
unfolding in_front
split_at k String.[] = "" ∷ []
split_at k (String.◌∷◌ c s) =
    let rest = split_at k s in
    if code c == k then "" ∷ rest else in_front (String.◌∷◌ c String.[]) rest

-- `parts.join(sep)`
unfoldable pub join_with : String → List String → String
join_with sep [] = ""
join_with sep (s ∷ []) = s
join_with sep (s ∷ t ∷ rest) = s ^^ sep ^^ join_with sep (t ∷ rest)

-- A text of one character in front of another.
pub one-append : (c : Char) (t : String) → String.◌∷◌ c String.[] ^^ t ≡ String.◌∷◌ c t
one-append c t = cons-append c "" t ∙ ap (String.◌∷◌ c) (nil-append t)

pub has_char-append : (k : ℕ) (s t : String) → has_char k (s ^^ t) ≡ has_char k s || has_char k t
unfolding has_char
has_char-append k String.[] t = ap (has_char k) (nil-append t)
has_char-append k (String.◌∷◌ c s) t =
    ap (has_char k) (cons-append c s t) ∙ ground (has_char-append k s t, arith)
