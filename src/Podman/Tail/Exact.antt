-- ===== src/Podman/Tail/Exact.antt =====
-- The collector holds exactly the tail of what was written.
use mathlib.Core.List.{append_assoc, append-nil}
use signalk_doctor_server.Common.{
  ℕ, zero, suc, ◌+◌, ◌-◌, ◌≤◌, ◌≡◌, refl, sym, ap, ◌∙◌, Bool, true, List, [], ◌∷◌, ◌++◌, arith,
  if◌then◌else◌, length, drop, take_last, ltb, length-append, length-drop, drop-nil, drop_at,
  drop-drop, drop-append, drop-append_past,
}
use signalk_doctor_server.Podman.Tail.{TailCollector, empty, trim, write_chunk, write_all, concat}

concat-append : (xs ys : List (List ℕ)) → concat (xs ++ ys) ≡ concat xs ++ concat ys
concat-append [] ys = refl
concat-append (x ∷ xs) ys = rw (concat-append xs ys) (sym (append_assoc x (concat xs) (concat ys)))

-- What the trimming loop does to the joined bytes.
trim-concat :
    (chunks : List (List ℕ)) (total : ℕ) (b : Bool) (overflow : ℕ)
    → overflow ≤ length (concat chunks)
    → concat (trim chunks total b overflow).chunks ≡ drop overflow (concat chunks)
unfolding trim
trim-concat [] total b overflow h = sym (drop-nil overflow)
trim-concat (first ∷ rest) total b zero h = refl
trim-concat (first ∷ rest) total b (suc n) h = ground (
  arith,
  length-append first (concat rest),
  trim-concat rest (total - length first) true (suc n - length first),
  drop-append_past (suc n) first (concat rest),
  drop-append (suc n) first (concat rest),
)

trim-total :
    (chunks : List (List ℕ)) (total : ℕ) (b : Bool) (overflow : ℕ)
    → overflow ≤ length (concat chunks)
    → total ≡ length (concat chunks)
    → (trim chunks total b overflow).total ≡ total - overflow
unfolding trim
trim-total [] total b overflow h e = ground arith
trim-total (first ∷ rest) total b overflow h e = ground (
  arith,
  length-append first (concat rest),
  trim-total rest (total - length first) true (overflow - length first),
)

trim-truncated :
    (chunks : List (List ℕ)) (total : ℕ) (b : Bool) (overflow : ℕ)
    → overflow ≤ length (concat chunks)
    → (trim chunks total b overflow).truncated ≡ (if ltb 0 overflow then true else b)
unfolding trim
trim-truncated [] total b overflow h = ground arith
trim-truncated (first ∷ rest) total b overflow h = ground (
  arith,
  length-append first (concat rest),
  trim-truncated rest (total - length first) true (overflow - length first),
)

-- What the collector holds after a history of bytes.
abbrev pub Holds : ℕ → List ℕ → TailCollector → Type 0
Holds limit bytes t =
    (concat t.chunks ≡ take_last limit bytes)
    × (t.total ≡ length (take_last limit bytes))
    × (t.truncated ≡ ltb limit (length bytes))

write_chunk-Holds :
    (limit : ℕ) (bytes chunk : List ℕ) (t : TailCollector)
    → Holds limit bytes t
    → Holds limit (bytes ++ chunk) (write_chunk limit chunk t)
unfolding write_chunk
write_chunk-Holds limit bytes chunk t (joined, total, cut) =
    let all = t.chunks ++ chunk ∷ [] in
    let over = t.total + length chunk - limit in
    let early = length bytes - limit in
    let l = length-append bytes chunk in
    let ld = length-drop early bytes in
    let all_joined : concat all ≡ drop early (bytes ++ chunk) =
      concat-append t.chunks (chunk ∷ [])
      ∙ ap (λ c. c ++ (chunk ++ [])) joined
      ∙ ap (λ c. drop early bytes ++ c) (append-nil chunk)
      ∙ sym (drop-append early bytes chunk (omega arith)) in
    let sum : t.total + length chunk ≡ length (concat all) =
      omega (arith, ap length all_joined, length-drop early (bytes ++ chunk)) in
    let fits : over ≤ length (concat all) = omega arith in
    let kept = length-drop (length (bytes ++ chunk) - limit) (bytes ++ chunk) in
    (
      trim-concat all (t.total + length chunk) t.truncated over fits
          ∙ ap (drop over) all_joined
          ∙ drop-drop over early (bytes ++ chunk)
          ∙ drop_at (early + over) (length (bytes ++ chunk) - limit) (bytes ++ chunk) (omega arith),
      trim-total all (t.total + length chunk) t.truncated over fits sum ∙ omega arith,
      trim-truncated all (t.total + length chunk) t.truncated over fits ∙ ground arith,
    )

write_all-Holds :
    (limit : ℕ) (bytes : List ℕ) (chunks : List (List ℕ)) (t : TailCollector)
    → Holds limit bytes t
    → Holds limit (bytes ++ concat chunks) (write_all limit chunks t)
unfolding write_all
write_all-Holds limit bytes [] t h = rw (append-nil bytes) h
write_all-Holds limit bytes (chunk ∷ more) t h = rw (← append_assoc bytes chunk (concat more)) (
    write_all-Holds limit (bytes ++ chunk) more (write_chunk limit chunk t)
      (write_chunk-Holds limit bytes chunk t h))

-- However the output is cut into chunks, a collector that starts empty holds exactly its last
-- `limit` bytes, counts them right, and says that it truncated exactly when there were more.
pub write_all_tail :
    (limit : ℕ) (chunks : List (List ℕ))
    → let t = write_all limit chunks empty in
      (concat t.chunks ≡ take_last limit (concat chunks))
      × (t.total ≡ length (concat t.chunks))
      × (t.truncated ≡ ltb limit (length (concat chunks)))
write_all_tail limit chunks =
    let none_left = drop-nil {A = ℕ} (0 - limit) in
    let (joined, total, cut) =
      write_all-Holds limit [] chunks empty
        (sym none_left, ap length (sym none_left), ground arith) in
    (joined, total ∙ sym (ap length joined), cut)
