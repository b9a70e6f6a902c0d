-- ===== src/Quadlet/Image.antt =====
-- What a rewrite of the image leaves to the next one.
use signalk_doctor_server.Common.{
  ◌≡◌, ◌≢◌, refl, ap, sym, subst, ◌∙◌, Bool, true, false, Option, none, some, List, [], ◌∷◌, ◌++◌,
  ℕ, if◌then◌else◌, ◌==◌, any, All,
}
use signalk_doctor_server.Common.Text.{
  codes, is_space, trim, trim_start, trim_end, is_line_end, strip_i, split_codes, in_front,
}
use signalk_doctor_server.Quadlet.{
  join_lines, split_indent, after_name, is_image_line, value_of, grouped, match_image, image_of,
  image_line,
}

-- No white space at its ends, and no line end.
abbrev pub IsImage : List ℕ → Type 0
IsImage image =
    (trim_start image ≡ image) × (trim_end image ≡ image) × (any is_line_end image ≡ false)

abbrev pub IsBlank : List ℕ → Type 0
IsBlank = All λ c. is_space c ≡ true

abbrev pub IsLine : List ℕ → Type 0
IsLine = All λ c. (c == 10) ≡ false

abbrev indent_of : List ℕ × List ℕ → List ℕ
indent_of r = r.0

pub split_indent-IsBlank : (line : List ℕ) → IsBlank (split_indent line).0
unfolding split_indent
split_indent-IsBlank [] = tt
split_indent-IsBlank (c ∷ line) = by_test (is_space c) refl (split_indent-IsBlank line)
  where
    by_test :
        (b : Bool)
        → is_space c ≡ b
        → IsBlank (split_indent line).0
        → IsBlank (
            indent_of
              (if b then (c ∷ (split_indent line).0, (split_indent line).1) else ([], c ∷ line)))
    by_test true e later = (e, later)
    by_test false e later = tt

pub split_indent-IsLine : (line : List ℕ) → IsLine line → IsLine (split_indent line).0
unfolding split_indent
split_indent-IsLine [] h = tt
split_indent-IsLine (c ∷ line) (n, h) = by_test (is_space c) (split_indent-IsLine line h)
  where
    by_test :
        (b : Bool)
        → IsLine (split_indent line).0
        → IsLine (
            indent_of
              (if b then (c ∷ (split_indent line).0, (split_indent line).1) else ([], c ∷ line)))
    by_test true later = (n, later)
    by_test false later = tt

split_indent-append :
    (indent v : List ℕ)
    → IsBlank indent
    → split_indent (image_line indent v) ≡ (indent, codes "Image=" ++ v)
unfolding split_indent
split_indent-append [] v h = refl
split_indent-append (c ∷ indent) v (b, h) = rw (b, split_indent-append indent v h) refl

trim_start-append : (indent v : List ℕ) → IsBlank indent → trim_start (indent ++ v) ≡ trim_start v
unfolding trim_start
trim_start-append [] v h = refl
trim_start-append (c ∷ indent) v (b, h) = rw b (trim_start-append indent v h)

is_image_line-image_line :
    (indent image : List ℕ) → IsBlank indent → is_image_line (image_line indent image) ≡ true
unfolding is_image_line after_name strip_i trim trim_start trim_end
is_image_line-image_line indent image b =
    subst
      (λ t.
        elim (after_name (strip_i (codes "Image") (trim_end t))) [ none ↦ false | some rest ↦ true ]
        ≡ true)
      (sym (trim_start-append indent (codes "Image=" ++ image) b)) refl

value_of_image : (image : List ℕ) → IsImage image → value_of (some image) ≡ some image
unfolding value_of trim
value_of_image image (s, e, l) = rw (s, l) (ap (λ v. some v) (ap trim_end s ∙ e))

match_image-image_line :
    (indent image : List ℕ)
    → IsBlank indent
    → IsImage image
    → match_image (image_line indent image) ≡ some (indent, image)
unfolding match_image after_name strip_i trim_start grouped
match_image-image_line indent image b h =
    subst
      (λ (r : List ℕ × List ℕ).
        grouped r.0 (value_of (after_name (strip_i (codes "Image") r.1))) ≡ some (indent, image))
      (sym (split_indent-append indent image b)) (ap (grouped indent) (value_of_image image h))

-- The line that a rewrite leaves is read back.
pub image_of-image_line :
    (indent image : List ℕ)
    → IsBlank indent
    → IsImage image
    → image_of (image_line indent image) ≡ some (indent, image)
unfolding image_of
image_of-image_line indent image b h =
    rw (is_image_line-image_line indent image b) (match_image-image_line indent image b h)

line_alone : (l : List ℕ) → IsLine l → split_codes 10 l ≡ l ∷ []
unfolding split_codes in_front
line_alone [] h = refl
line_alone (c ∷ l) (n, h) = rw (n, line_alone l h) refl

line_before :
    (l rest : List ℕ) → IsLine l → split_codes 10 (l ++ 10 ∷ rest) ≡ l ∷ split_codes 10 rest
unfolding split_codes in_front
line_before [] rest h = refl
line_before (c ∷ l) rest (n, h) = rw (n, line_before l rest h) refl

pub split_codes-join_lines :
    (ls : List (List ℕ)) → ls ≢ [] → All IsLine ls → split_codes 10 (join_lines ls) ≡ ls
unfolding join_lines
split_codes-join_lines [] n h = absurd (n refl)
split_codes-join_lines (l ∷ []) n (h, hs) = line_alone l h
split_codes-join_lines (l ∷ m ∷ ls) n (h, hs) =
    line_before l (join_lines (m ∷ ls)) h
    ∙ ap (λ x. l ∷ x) (split_codes-join_lines (m ∷ ls) (λ k. cc) hs)

pub split_codes-IsLine : (body : List ℕ) → All IsLine (split_codes 10 body)
unfolding split_codes
split_codes-IsLine [] = (tt, tt)
split_codes-IsLine (c ∷ body) =
    by_test (c == 10) refl (split_codes 10 body) (split_codes-IsLine body)
  where
    put : (ls : List (List ℕ)) → (c == 10) ≡ false → All IsLine ls → All IsLine (in_front c ls)
    put [] e h = ((e, tt), tt)
    put (l ∷ ls) e (h, hs) = ((e, h), hs)

    by_test :
        (b : Bool)
        → (c == 10) ≡ b
        → (ls : List (List ℕ)) → All IsLine ls
        → All IsLine (if b then [] ∷ ls else in_front c ls)
    by_test true e ls h = (tt, h)
    by_test false e ls h = put ls e h

-- A match has the white space in front as its first group.
match_image-indent :
    (line indent v : List ℕ) → match_image line ≡ some (indent, v) → (split_indent line).0 ≡ indent
unfolding match_image
match_image-indent line indent v h =
    by_value (value_of (after_name (strip_i (codes "Image") (split_indent line).1))) h
  where
    by_value :
        (o : Option (List ℕ))
        → grouped (split_indent line).0 o ≡ some (indent, v)
        → (split_indent line).0 ≡ indent
    by_value none k = cc k
    by_value (some w) k = cc

pub image_of-indent :
    (line indent v : List ℕ) → image_of line ≡ some (indent, v) → (split_indent line).0 ≡ indent
unfolding image_of
image_of-indent line indent v h = by_test (is_image_line line) h
  where
    by_test :
        (b : Bool)
        → (if b then match_image line else none) ≡ some (indent, v)
        → (split_indent line).0 ≡ indent
    by_test true k = match_image-indent line indent v k
    by_test false k = cc k
