-- ===== src/Images/Retention/Sweep.antt =====
-- What a prune removes, keeps and skips.
use signalk_doctor_server.Common.{
  ◌+◌, ◌≡◌, refl, sym, inl, inr, Bool, true, false, not, List, [], ◌∷◌, String, arith, filter,
  length, map, In,
}
use signalk_doctor_server.Images.Retention.{TaggedImage, RetentionResult, has_id, note, sweep}

-- A tag of the list whose image is not protected.
abbrev pub Unprotected : List String → List TaggedImage → String → Type 0
Unprotected ids ts r = (t : TaggedImage) × In t ts × (t.repo_tag ≡ r) × (has_id t.id ids ≡ false)

abbrev pub repo_tags : List TaggedImage → List String
repo_tags = map λ t. t.repo_tag

abbrev pub protected_of : List String → List TaggedImage → List TaggedImage
protected_of ids = filter λ t. has_id t.id ids

abbrev pub rest_of : List String → List TaggedImage → List TaggedImage
rest_of ids = filter λ t. not (has_id t.id ids)

-- What a sweep accounts for: it keeps the protected tags, and tries every other once.
abbrev pub Accounts : List String → List TaggedImage → RetentionResult → Type 0
Accounts ids ts r =
    (r.kept ≡ repo_tags (protected_of ids ts))
    × (length r.removed + length r.skipped ≡ length (rest_of ids ts))

note-Accounts :
    {W : Type 0} (ids : List String) (t : TaggedImage) (rest : List TaggedImage) (b done : Bool)
    (kept tried : RetentionResult × W)
    → has_id t.id ids ≡ b
    → Accounts ids rest kept.0
    → Accounts ids rest tried.0
    → Accounts ids (t ∷ rest) (note b done t.repo_tag kept tried).0
unfolding note
note-Accounts ids t rest true done kept tried e (same, size) old =
    (ground (arith, e, same), ground (arith, e, size))
note-Accounts ids t rest false true kept tried e old (same, size) =
    (ground (arith, e, same), ground (arith, e, size))
note-Accounts ids t rest false false kept tried e old (same, size) =
    (ground (arith, e, same), ground (arith, e, size))

note-removed :
    {W : Type 0} (ids : List String) (t : TaggedImage) (rest : List TaggedImage) (b done : Bool)
    (kept tried : RetentionResult × W) (r : String)
    → has_id t.id ids ≡ b
    → (In r kept.0.removed → Unprotected ids rest r)
    → (In r tried.0.removed → Unprotected ids rest r)
    → In r (note b done t.repo_tag kept tried).0.removed
    → Unprotected ids (t ∷ rest) r
unfolding note
note-removed ids t rest true done kept tried r e p q m =
    let (u, within, same, free) = p m in (u, inr within, same, free)
note-removed ids t rest false true kept tried r e p q (inl same) = (t, inl refl, sym same, e)
note-removed ids t rest false true kept tried r e p q (inr m) =
    let (u, within, same, free) = q m in (u, inr within, same, free)
note-removed ids t rest false false kept tried r e p q m =
    let (u, within, same, free) = q m in (u, inr within, same, free)

module _ {W : Type 0} (remove : String → W → Bool × W) where
  pub sweep-Accounts :
      (ids : List String) (ts : List TaggedImage) (w : W)
      → Accounts ids ts (sweep remove ids ts w).0
  unfolding sweep
  sweep-Accounts ids [] w = (refl, refl)
  sweep-Accounts ids (t ∷ rest) w =
      note-Accounts ids t rest (has_id t.id ids) (remove t.repo_tag w).0 _ _ refl
        (sweep-Accounts ids rest w) (sweep-Accounts ids rest (remove t.repo_tag w).1)

  pub sweep-removed :
      (ids : List String) (ts : List TaggedImage) (w : W) (r : String)
      → In r (sweep remove ids ts w).0.removed
      → Unprotected ids ts r
  unfolding sweep
  sweep-removed ids [] w r m = elim m [ ]
  sweep-removed ids (t ∷ rest) w r m =
      note-removed ids t rest (has_id t.id ids) (remove t.repo_tag w).0 _ _ r refl
        (sweep-removed ids rest w r) (sweep-removed ids rest (remove t.repo_tag w).1 r) m
