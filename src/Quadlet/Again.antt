-- ===== src/Quadlet/Again.antt =====
-- One rewrite after another.
use signalk_doctor_server.Common.{
  ◌≡◌, ◌≢◌, refl, sym, ap, subst, ◌∙◌, false, Option, none, some, List, [], ◌∷◌, ◌++◌, ℕ, arith,
  any, All,
}
use signalk_doctor_server.Common.Text.{codes, is_line_end, split_codes}
use signalk_doctor_server.Quadlet.{
  join_lines, image_of, image_line, replaced, rewrite_lines, joined, rewrite_image_line,
}
use signalk_doctor_server.Quadlet.Image.{
  IsImage, IsBlank, IsLine, split_indent-IsBlank, split_indent-IsLine, image_of-image_line,
  image_of-indent, split_codes-join_lines, split_codes-IsLine,
}

image-IsLine : (image : List ℕ) → any is_line_end image ≡ false → IsLine image
image-IsLine [] h = tt
image-IsLine (c ∷ image) h = (ground (h, arith), image-IsLine image (ground (h, arith)))

append-IsLine : (a b : List ℕ) → IsLine a → IsLine b → IsLine (a ++ b)
append-IsLine [] b h k = k
append-IsLine (c ∷ a) b (n, h) k = (n, append-IsLine a b h k)

module _ (image other : List ℕ) (ok : IsImage image) where
  -- What is known after a rewrite of the lines.
  abbrev Follows : List (List ℕ) → List (List ℕ) → List ℕ → Type 0
  Follows ls ms p =
      (ns : List (List ℕ)) × (rewrite_lines other ls ≡ some (ns, p))
      × (rewrite_lines other ms ≡ some (ns, image))
      × All IsLine ms
      × (ms ≢ [])

  at_line :
      (l : List ℕ) (ls : List (List ℕ)) (indent p : List ℕ)
      → IsLine l
      → All IsLine ls
      → image_of l ≡ some (indent, p)
      → Follows (l ∷ ls) (image_line indent image ∷ ls) p
  unfolding rewrite_lines replaced
  at_line l ls indent p h hs e =
      let same = image_of-indent l indent p e in
      let blank = subst IsBlank same (split_indent-IsBlank l) in
      let no_break = subst IsLine same (split_indent-IsLine l h) in
      let (s, t, ends) = ok in
      (
        image_line indent other ∷ ls,
        ap (λ o. replaced other l ls o (rewrite_lines other ls)) e,
        ap (λ o. replaced other (image_line indent image) ls o (rewrite_lines other ls))
            (image_of-image_line indent image blank ok),
        (
          append-IsLine indent (codes "Image=" ++ image) no_break (
              append-IsLine (codes "Image=") image
                (refl, (refl, (refl, (refl, (refl, (refl, tt)))))) (image-IsLine image ends)),
          hs,
        ),
        λ k. cc k,
      )

  after_line :
      (l : List ℕ) (ls ms : List (List ℕ)) (p : List ℕ)
      → IsLine l
      → image_of l ≡ none
      → Follows ls ms p
      → Follows (l ∷ ls) (l ∷ ms) p
  unfolding rewrite_lines replaced
  after_line l ls ms p h e (ns, first, second, lines, n) =
      (l ∷ ns, rw (e, first) refl, rw (e, second) refl, (h, lines), λ k. cc k)

  rewrite_lines-Follows :
      (ls ms : List (List ℕ)) (p : List ℕ)
      → All IsLine ls
      → rewrite_lines image ls ≡ some (ms, p)
      → Follows ls ms p
  unfolding rewrite_lines replaced
  rewrite_lines-Follows [] ms p h e = cc e
  rewrite_lines-Follows (l ∷ ls) ms p (h, hs) e =
      by_match (image_of l) refl (rewrite_lines image ls)
        (λ ms' q k. rewrite_lines-Follows ls ms' q hs k) e
    where
      by_match :
          (o : Option (List ℕ × List ℕ))
          → image_of l ≡ o
          → (later : Option (List (List ℕ) × List ℕ))
          → ((ms' : List (List ℕ)) (q : List ℕ) → later ≡ some (ms', q) → Follows ls ms' q)
          → replaced image l ls o later ≡ some (ms, p)
          → Follows (l ∷ ls) ms p
      by_match (some (indent, q)) f later again k =
          let a : image_line indent image ∷ ls ≡ ms = cc in
          let b : q ≡ p = cc in
          subst (λ x. Follows (l ∷ ls) x p) a
            (subst (λ y. Follows (l ∷ ls) (image_line indent image ∷ ls) y) b
              (at_line l ls indent q h hs f))
      by_match none f none again k = cc k
      by_match none f (some (ms', q)) again k =
          let a : l ∷ ms' ≡ ms = cc in
          let b : q ≡ p = cc in
          subst (λ x. Follows (l ∷ ls) x p) a
            (subst (λ y. Follows (l ∷ ls) (l ∷ ms') y) b
              (after_line l ls ms' q h f (again ms' q refl)))

  -- One line is replaced: the first with an image. All before it and after it stay.
  abbrev pub Replaced : List (List ℕ) → List (List ℕ) → List ℕ → Type 0
  Replaced ls ms p =
      (pre : List (List ℕ)) × (l : List ℕ) × (post : List (List ℕ)) × (indent : List ℕ) × (ls
        ≡ pre ++ l ∷ post)
      × All (λ x. image_of x ≡ none) pre
      × (image_of l ≡ some (indent, p))
      × (ms ≡ pre ++ image_line indent image ∷ post)

  rewrite_lines-Replaced :
      (ls ms : List (List ℕ)) (p : List ℕ)
      → rewrite_lines image ls ≡ some (ms, p)
      → Replaced ls ms p
  unfolding rewrite_lines replaced
  rewrite_lines-Replaced [] ms p e = cc e
  rewrite_lines-Replaced (l ∷ ls) ms p e =
      by_match (image_of l) refl (rewrite_lines image ls)
        (λ ms' q k. rewrite_lines-Replaced ls ms' q k) e
    where
      by_match :
          (o : Option (List ℕ × List ℕ))
          → image_of l ≡ o
          → (later : Option (List (List ℕ) × List ℕ))
          → ((ms' : List (List ℕ)) (q : List ℕ) → later ≡ some (ms', q) → Replaced ls ms' q)
          → replaced image l ls o later ≡ some (ms, p)
          → Replaced (l ∷ ls) ms p
      by_match (some (indent, q)) f later again k =
          let a : image_line indent image ∷ ls ≡ ms = cc in
          let b : q ≡ p = cc in
          ([], l, ls, indent, refl, tt, f ∙ ap (λ y. some (indent, y)) b, sym a)
      by_match none f none again k = cc k
      by_match none f (some (ms', q)) again k =
          let a : l ∷ ms' ≡ ms = cc in
          let b : q ≡ p = cc in
          let (pre, m, post, indent, split, before, at, same) = again ms' q refl in
          (
            l ∷ pre,
            m,
            post,
            indent,
            ap (λ x. l ∷ x) split,
            (f, before),
            at ∙ ap (λ y. some (indent, y)) b,
            sym a ∙ ap (λ x. l ∷ x) same,
          )

  -- A rewrite replaces the first line with an image, keeping its indent, and leaves all lines
  -- before and after it as they are; the previous image is that line's. And it is undone by the
  -- next one: what the next rewrite finds as the previous image is the image that was written,
  -- and the body it leaves is the one that it leaves without the first. The image has no white
  -- space at its ends and no line end.
  pub rewrite_image_line-rewrite_image_line :
      (body body' p : List ℕ)
      → rewrite_image_line body image ≡ some (body', p)
      → ((ms : List (List ℕ)) × (body' ≡ join_lines ms) × Replaced (split_codes 10 body) ms p)
        × ((body'' : List ℕ) × (rewrite_image_line body other ≡ some (body'', p))
            × (rewrite_image_line body' other ≡ some (body'', image)))
  unfolding rewrite_image_line joined
  rewrite_image_line-rewrite_image_line body body' p =
      by_lines (rewrite_lines image (split_codes 10 body)) refl
    where
      by_lines :
          (o : Option (List (List ℕ) × List ℕ))
          → rewrite_lines image (split_codes 10 body) ≡ o
          → joined o ≡ some (body', p)
          → ((ms : List (List ℕ)) × (body' ≡ join_lines ms) × Replaced (split_codes 10 body) ms p)
            × ((body'' : List ℕ) × (rewrite_image_line body other ≡ some (body'', p))
                × (rewrite_image_line body' other ≡ some (body'', image)))
      by_lines none f e = cc e
      by_lines (some (ms, q)) f e =
          let a : join_lines ms ≡ body' = cc in
          let b : q ≡ p = cc in
          let (ns, first, second, lines, n) =
            rewrite_lines-Follows (split_codes 10 body) ms q (split_codes-IsLine body) f in
          (
            (
              ms,
              sym a,
              subst (Replaced (split_codes 10 body) ms) b
                  (rewrite_lines-Replaced (split_codes 10 body) ms q f),
            ),
            (
              join_lines ns,
              subst (λ y. rewrite_image_line body other ≡ some (join_lines ns, y)) b
                  (ap joined first),
              subst (λ x. rewrite_image_line x other ≡ some (join_lines ns, image)) a
                  (ap (λ ls. joined (rewrite_lines other ls)) (split_codes-join_lines ms n lines)
                    ∙ ap joined second),
            ),
          )
