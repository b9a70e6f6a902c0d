-- ===== src/Podman/Tail.antt =====
-- src/podman/exec.ts, TailCollector: keeps the last bytes of a process's output. Chunks are lists
-- of bytes; the limit is an argument of the laws, MAX_OUTPUT_BYTES in `tail_limit`.
pub mod Exact
use signalk_doctor_server.Common.{
  ℕ, ◌+◌, ◌-◌, ◌*◌, Bool, true, false, List, [], ◌∷◌, ◌++◌, String, ◌^^◌, if◌then◌else◌, length,
  drop, ltb, leb,
}

abbrev pub tail_limit : ℕ
tail_limit = 64 * 1024

pub record TailCollector : Type 0 where
  pub chunks : List (List ℕ)
  pub total : ℕ
  pub truncated : Bool

abbrev pub empty : TailCollector
empty = record { chunks = []; total = 0; truncated = false }

-- The loop of `_write`: `overflow` bytes are still to go from the front. An `overflow` that is not
-- positive ends it, so the difference on ℕ serves.
unfoldable pub trim : List (List ℕ) → ℕ → Bool → ℕ → TailCollector
trim [] total truncated overflow = record { chunks = []; total = total; truncated = truncated }
trim (first ∷ rest) total truncated overflow =
    let dropped = trim rest (total - length first) true (overflow - length first) in
    if ltb 0 overflow
    then if leb (length first) overflow then dropped else record {
      chunks = drop overflow first ∷ rest;
      total = total - overflow;
      truncated = true;
    }
    else record { chunks = first ∷ rest; total = total; truncated = truncated }

unfoldable pub write_chunk : ℕ → List ℕ → TailCollector → TailCollector
unfolding trim
write_chunk limit chunk t =
    let total = t.total + length chunk in
    trim (t.chunks ++ chunk ∷ []) total t.truncated (total - limit)

-- Every chunk of a stream, in order.
unfoldable pub write_all : ℕ → List (List ℕ) → TailCollector → TailCollector
unfolding write_chunk
write_all limit [] t = t
write_all limit (chunk ∷ more) t = write_all limit more (write_chunk limit chunk t)

abbrev pub concat : List (List ℕ) → List ℕ
concat [] = []
concat (chunk ∷ rest) = chunk ++ concat rest

-- `text()`; `utf8` is Node's decoder.
unfoldable pub tail_text : (List ℕ → String) → TailCollector → String
tail_text utf8 t =
    let joined = utf8 (concat t.chunks) in
    if t.truncated then "…(truncated)…\n" ^^ joined else joined
