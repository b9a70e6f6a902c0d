-- ===== src/Quadlet.antt =====
-- src/quadlet/rewriter.ts, rewriteImageLine: the image of a quadlet, read and replaced. Texts are
-- code points.
mod Examples
pub mod Image
pub mod Again
use signalk_doctor_server.Common.{
  ℕ, Bool, true, false, Option, none, some, List, [], ◌∷◌, ◌++◌, if◌then◌else◌, any,
}
use signalk_doctor_server.Common.Text.{
  codes, is_space, trim, trim_start, read_char, is_line_end, strip_i, split_codes,
}

-- `lines.join('\n')`
unfoldable pub join_lines : List (List ℕ) → List ℕ
join_lines [] = []
join_lines (l ∷ []) = l
join_lines (l ∷ m ∷ ls) = l ++ 10 ∷ join_lines (m ∷ ls)

-- The white space in front, and the rest.
unfoldable pub split_indent : List ℕ → List ℕ × List ℕ
split_indent [] = ([], [])
split_indent (c ∷ line) =
    let (indent, rest) = split_indent line in
    if is_space c then (c ∷ indent, rest) else ([], c ∷ line)

-- After the name: `\s*=`, with what follows.
after_name : Option (List ℕ) → Option (List ℕ)
after_name none = none
after_name (some rest) = read_char b'=' (trim_start rest)

-- `/^Image\s*=/i.test(line.trim())`
unfoldable pub is_image_line : List ℕ → Bool
unfolding after_name
is_image_line line = elim (after_name (strip_i (codes "Image") (trim line))) [
  | none ↦ false
  | some rest ↦ true
]

value_of : Option (List ℕ) → Option (List ℕ)
value_of none = none
value_of (some rest) = let v = trim_start rest in if any is_line_end v then none else some (trim v)

grouped : List ℕ → Option (List ℕ) → Option (List ℕ × List ℕ)
grouped indent none = none
grouped indent (some v) = some (indent, v)

-- `line.match(/^(\s*)Image\s*=\s*(.*)$/i)`: the first group, and the second one trimmed.
unfoldable pub match_image : List ℕ → Option (List ℕ × List ℕ)
unfolding after_name value_of grouped
match_image line =
    let (indent, rest) = split_indent line in
    grouped indent (value_of (after_name (strip_i (codes "Image") rest)))

unfoldable pub image_of : List ℕ → Option (List ℕ × List ℕ)
image_of line = if is_image_line line then match_image line else none

abbrev pub image_line : (indent image : List ℕ) → List ℕ
image_line indent image = indent ++ (codes "Image=" ++ image)

-- The first line that matches is replaced; its image is the previous one.
replaced :
    List ℕ
    → List ℕ
    → List (List ℕ)
    → Option (List ℕ × List ℕ)
    → Option (List (List ℕ) × List ℕ)
    → Option (List (List ℕ) × List ℕ)
replaced image l ls (some (indent, previous)) later = some (image_line indent image ∷ ls, previous)
replaced image l ls none none = none
replaced image l ls none (some (ls', previous)) = some (l ∷ ls', previous)

unfoldable pub rewrite_lines : List ℕ → List (List ℕ) → Option (List (List ℕ) × List ℕ)
unfolding replaced
rewrite_lines image [] = none
rewrite_lines image (l ∷ ls) = replaced image l ls (image_of l) (rewrite_lines image ls)

joined : Option (List (List ℕ) × List ℕ) → Option (List ℕ × List ℕ)
joined none = none
joined (some (ls, previous)) = some (join_lines ls, previous)

-- `rewriteImageLine`: the new body and the previous image. `none` throws.
unfoldable pub rewrite_image_line : List ℕ → List ℕ → Option (List ℕ × List ℕ)
unfolding joined
rewrite_image_line body image = joined (rewrite_lines image (split_codes 10 body))
