-- ===== src/Images/Retention/Protected.antt =====
-- Which ids are protected: all that are needed, and the whole budget for rollback.
use signalk_doctor_server.Common.{
  ℕ, zero, suc, ◌≡◌, ◌≢◌, refl, sym, ap, ◌∙◌, ◌⊎◌, inl, inr, Bool, true, false, ◌||◌, Option, some,
  List, [], ◌∷◌, ◌++◌, String, eq_iff, arith, if◌then◌else◌, filter, In,
}
use signalk_doctor_server.Images.Tags.{Compared}
use signalk_doctor_server.Images.Retention.{
  TaggedImage, has_id, is_rolling, running_ids, rolling_ids, comes_first, place, sort_newest_first,
  keep_newest, protected_ids,
}

has_id-append :
    (id : String) (xs ys : List String) → has_id id (xs ++ ys) ≡ (has_id id xs || has_id id ys)
has_id-append id [] ys = refl
has_id-append id (x ∷ xs) ys = ground (has_id-append id xs ys, arith)

-- The loop only adds ids.
keep_newest-keeps :
    (id : String) (left : ℕ) (ids : List String) (ts : List TaggedImage)
    → has_id id ids ≡ true
    → has_id id (keep_newest left ids ts) ≡ true
unfolding keep_newest
keep_newest-keeps id left ids [] h = h
keep_newest-keeps id zero ids (t ∷ rest) h = h
keep_newest-keeps id (suc left) ids (t ∷ rest) h =
    ground
      (keep_newest-keeps id (suc left) ids rest, keep_newest-keeps id left (t.id ∷ ids) rest, arith)

rolling_ids-has :
    (protect_tags : List String) (t : TaggedImage) (ts : List TaggedImage)
    → In t ts
    → is_rolling protect_tags t ≡ true
    → has_id t.id (rolling_ids protect_tags ts) ≡ true
unfolding rolling_ids
rolling_ids-has protect_tags t [] m h = elim m [ ]
rolling_ids-has protect_tags t (u ∷ rest) (inl e) h =
    ground (ap (λ x. x.id) e, ap (is_rolling protect_tags) e, eq_iff u.id t.id, arith)
rolling_ids-has protect_tags t (u ∷ rest) (inr m) h =
    ground (rolling_ids-has protect_tags t rest m h, arith)

-- A tag on an image that must stay: the running container's, or one that a rolling tag names.
abbrev pub IsNeeded : List String → Option String → List TaggedImage → TaggedImage → Type 0
IsNeeded protect_tags running tagged t =
    ((running ≡ some t.id) × (t.id ≢ ""))
    ⊎ ((u : TaggedImage) × In u tagged × (is_rolling protect_tags u ≡ true) × (u.id ≡ t.id))

pub IsNeeded-protected :
    (locale_compare : List ℕ → List ℕ → Compared) (keep : ℕ) (protect_tags : List String)
    (running : Option String) (tagged : List TaggedImage) (t : TaggedImage)
    → IsNeeded protect_tags running tagged t
    → has_id t.id (protected_ids locale_compare keep protect_tags running tagged) ≡ true
unfolding protected_ids
IsNeeded-protected locale_compare keep protect_tags running tagged t needed =
    keep_newest-keeps t.id keep (running_ids running ++ rolling_ids protect_tags tagged) _
      (has_id-append t.id (running_ids running) (rolling_ids protect_tags tagged) ∙ either needed)
  where
    either :
        IsNeeded protect_tags running tagged t
        → (has_id t.id (running_ids running) || has_id t.id (rolling_ids protect_tags tagged))
          ≡ true
    either (inl (e, filled)) = rw e (ground (eq_iff t.id "", eq_iff t.id t.id, arith))
    either (inr (u, m, rolls, e)) = ground (
      rolling_ids-has protect_tags u tagged m rolls,
      ap (λ i. has_id i (rolling_ids protect_tags tagged)) e,
      arith,
    )

split_at :
    (t : TaggedImage) (ts : List TaggedImage)
    → In t ts
    → (pre post : List TaggedImage) × (ts ≡ pre ++ t ∷ post)
split_at t [] m = elim m [ ]
split_at t (u ∷ rest) (inl e) = ([], rest, ap (λ x. x ∷ rest) (sym e))
split_at t (u ∷ rest) (inr m) =
    let (pre, post, e) = split_at t rest m in (u ∷ pre, post, ap (λ l. u ∷ l) e)

keep_newest-zero : (ids : List String) (ts : List TaggedImage) → keep_newest zero ids ts ≡ ids
unfolding keep_newest
keep_newest-zero ids [] = refl
keep_newest-zero ids (t ∷ rest) = refl

-- The budget is spent, one at a time: each id is new, and that of one of the tags.
abbrev pub Adds : ℕ → List String → List TaggedImage → List String → Type 0
Adds zero ids ts result = result ≡ ids
Adds (suc left) ids ts result =
    (u : TaggedImage) × In u ts × (has_id u.id ids ≡ false) × Adds left (u.id ∷ ids) ts result

Adds-later :
    (left : ℕ) (ids : List String) (u : TaggedImage) (ts : List TaggedImage) (result : List String)
    → Adds left ids ts result
    → Adds left ids (u ∷ ts) result
Adds-later zero ids u ts result h = h
Adds-later (suc left) ids u ts result (v, m, n, h) =
    (v, inr m, n, Adds-later left (v.id ∷ ids) u ts result h)

-- The ids kept are decided by the tags before `t`, and are the whole budget.
abbrev pub IsSpent : ℕ → List String → List TaggedImage → TaggedImage → List String → Type 0
IsSpent left ids ts t result =
    (pre : List TaggedImage) × (post : List TaggedImage) × (ts ≡ pre ++ t ∷ post)
    × (result ≡ keep_newest left ids pre)
    × Adds left ids pre result

pub keep_newest-IsSpent :
    (left : ℕ) (ids : List String) (ts : List TaggedImage) (t : TaggedImage)
    → In t ts
    → has_id t.id (keep_newest left ids ts) ≡ false
    → IsSpent left ids ts t (keep_newest left ids ts)
unfolding keep_newest
keep_newest-IsSpent left ids [] t m h = elim m [ ]
keep_newest-IsSpent zero ids (u ∷ rest) t m h =
    let (pre, post, e) = split_at t (u ∷ rest) m in
    (pre, post, e, sym (keep_newest-zero ids pre), refl)
keep_newest-IsSpent (suc left) ids (u ∷ rest) t (inl e) h = absurd (
    ground (
      keep_newest-keeps u.id (suc left) ids rest,
      keep_newest-keeps u.id left (u.id ∷ ids) rest,
      ap (λ x. x.id) e,
      eq_iff u.id u.id,
      arith,
    ))
keep_newest-IsSpent (suc left) ids (u ∷ rest) t (inr m) h =
    pick (has_id u.id ids) refl h (keep_newest-IsSpent (suc left) ids rest t m)
      (keep_newest-IsSpent left (u.id ∷ ids) rest t m)
  where
    passed : List String
    passed = keep_newest (suc left) ids rest

    taken : List String
    taken = keep_newest left (u.id ∷ ids) rest

    pick :
        (b : Bool)
        → has_id u.id ids ≡ b
        → has_id t.id (if b then passed else taken) ≡ false
        → (has_id t.id passed ≡ false → IsSpent (suc left) ids rest t passed)
        → (has_id t.id taken ≡ false → IsSpent left (u.id ∷ ids) rest t taken)
        → IsSpent (suc left) ids (u ∷ rest) t (if b then passed else taken)
    pick true e h pass take =
        let (pre, post, split, same, size) = pass h in
        (
          u ∷ pre,
          post,
          ap (λ l. u ∷ l) split,
          rw e same,
          Adds-later (suc left) ids u pre passed size,
        )
    pick false e h pass take =
        let (pre, post, split, same, size) = take h in
        (
          u ∷ pre,
          post,
          ap (λ l. u ∷ l) split,
          rw e same,
          (u, inl refl, e, Adds-later left (u.id ∷ ids) u pre taken size),
        )

pub In-filter :
    (test : TaggedImage → Bool) (t : TaggedImage) (ts : List TaggedImage)
    → In t ts
    → test t ≡ true
    → In t (filter test ts)
In-filter test t [] m h = elim m [ ]
In-filter test t (u ∷ rest) (inl e) h = head (test u) (sym (ap test e) ∙ h)
  where
    head :
        (b : Bool)
        → b ≡ true
        → In t (elim b [ true ↦ u ∷ filter test rest | false ↦ filter test rest ])
    head true same = inl e
    head false same = cc
In-filter test t (u ∷ rest) (inr m) h = pick (test u) (In-filter test t rest m h)
  where
    pick :
        (b : Bool)
        → In t (filter test rest)
        → In t (elim b [ true ↦ u ∷ filter test rest | false ↦ filter test rest ])
    pick true later = inr later
    pick false later = later

In-place :
    (locale_compare : List ℕ → List ℕ → Compared) (t u : TaggedImage) (ts : List TaggedImage)
    → (t ≡ u) ⊎ In t ts
    → In t (place locale_compare u ts)
unfolding place
In-place locale_compare t u [] (inl e) = inl e
In-place locale_compare t u [] (inr m) = elim m [ ]
In-place locale_compare t u (x ∷ rest) h =
    pick (comes_first locale_compare u x) h (λ m. In-place locale_compare t u rest (inr m))
      (λ e. In-place locale_compare t u rest (inl e))
  where
    later : List TaggedImage
    later = place locale_compare u rest

    pick :
        (b : Bool)
        → (t ≡ u) ⊎ ((t ≡ x) ⊎ In t rest)
        → (In t rest → In t later)
        → (t ≡ u → In t later)
        → In t (if b then u ∷ x ∷ rest else x ∷ later)
    pick true (inl e) deep here = inl e
    pick true (inr m) deep here = inr m
    pick false (inl e) deep here = inr (here e)
    pick false (inr (inl e)) deep here = inl e
    pick false (inr (inr m)) deep here = inr (deep m)

pub In-sort_newest_first :
    (locale_compare : List ℕ → List ℕ → Compared) (t : TaggedImage) (ts : List TaggedImage)
    → In t ts
    → In t (sort_newest_first locale_compare ts)
unfolding sort_newest_first
In-sort_newest_first locale_compare t [] m = elim m [ ]
In-sort_newest_first locale_compare t (u ∷ rest) (inl e) =
    In-place locale_compare t u (sort_newest_first locale_compare rest) (inl e)
In-sort_newest_first locale_compare t (u ∷ rest) (inr m) =
    In-place locale_compare t u (sort_newest_first locale_compare rest)
      (inr (In-sort_newest_first locale_compare t rest m))
