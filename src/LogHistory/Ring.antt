-- ===== src/LogHistory/Ring.antt =====
-- The history is the end of what the container wrote.
use mathlib.Core.List.{append_assoc, append-nil}
use signalk_doctor_server.Common.{
  ℕ, zero, suc, ◌+◌, ◌-◌, min, ◌≡◌, refl, sym, ap, ◌∙◌, Bool, true, false, Option, none, some, List,
  [], ◌∷◌, ◌++◌, String, str_eq, eq_iff, arith, if◌then◌else◌, ltb, length, drop, take_last, get_or,
  length-drop, drop-nil, drop_at, drop-drop, take_last-append,
}
use signalk_doctor_server.Common.Maps.{Map, lookup, lookup-insert}
use signalk_doctor_server.LogHistory.{backfill_limit, trimmed, push_history, tail_of, get_history}

-- Lines of several containers, as they come in.
abbrev pub push_all : List (String × String) → Map (List String) → Map (List String)
push_all [] history = history
push_all ((name, line) ∷ rest) history = push_all rest (push_history name line history)

abbrev pub lines_of : String → List (String × String) → List String
lines_of name [] = []
lines_of name ((other, line) ∷ rest) =
    let later = lines_of name rest in if str_eq other name then line ∷ later else later

trimmed-take_last : (buf : List String) → trimmed buf ≡ take_last backfill_limit buf
trimmed-take_last buf = pick (ltb backfill_limit (length buf)) refl
  where
    pick :
        (b : Bool)
        → ltb backfill_limit (length buf) ≡ b
        → (if b then drop (length buf - backfill_limit) buf else buf) ≡ take_last backfill_limit buf
    pick true e = refl
    pick false e = drop_at 0 (length buf - backfill_limit) buf (ground arith)

take_last-take_last :
    (m n : ℕ) (xs : List String) → take_last m (take_last n xs) ≡ take_last (min m n) xs
take_last-take_last m n xs =
    drop-drop (length (take_last n xs) - m) (length xs - n) xs
    ∙ drop_at (length xs - n + (length (take_last n xs) - m)) (length xs - min m n) xs
        (omega (arith, length-drop (length xs - n) xs))

-- The stored lines of a container after those that were there.
abbrev Stored : String → List String → Map (List String) → Type 0
Stored name lines history = get_or (lookup name history) [] ≡ take_last backfill_limit lines

push-Stored :
    (name other line : String) (lines : List String) (history : Map (List String))
    → Stored name lines history
    → Stored name
        (if str_eq other name then lines ++ line ∷ [] else lines)
        (push_history other line history)
unfolding push_history
push-Stored name other line lines history h =
    ap (λ o. get_or o [])
      (lookup-insert other name (trimmed (get_or (lookup other history) [] ++ line ∷ [])) history)
    ∙ pick (str_eq other name) refl
  where
    pick :
        (b : Bool)
        → str_eq other name ≡ b
        → get_or
            (if b
              then some (trimmed (get_or (lookup other history) [] ++ line ∷ []))
              else lookup name history)
            []
          ≡ take_last backfill_limit (if b then lines ++ line ∷ [] else lines)
    pick false e = h
    pick true e =
        let same : other ≡ name = ground (eq_iff other name, arith) in
        trimmed-take_last (get_or (lookup other history) [] ++ line ∷ [])
        ∙ ap (λ n. take_last backfill_limit (get_or (lookup n history) [] ++ line ∷ [])) same
        ∙ ap (λ l. take_last backfill_limit (l ++ line ∷ [])) h
        ∙ take_last-append backfill_limit lines (line ∷ [])

push_all-Stored :
    (name : String) (es : List (String × String)) (lines : List String)
    (history : Map (List String))
    → Stored name lines history
    → Stored name (lines ++ lines_of name es) (push_all es history)
push_all-Stored name [] lines history h = h ∙ ap (take_last backfill_limit) (sym (append-nil lines))
push_all-Stored name ((other, line) ∷ rest) lines history h =
    push_all-Stored name rest (if str_eq other name then lines ++ line ∷ [] else lines)
      (push_history other line history) (push-Stored name other line lines history h)
    ∙ ap (take_last backfill_limit) (shift (str_eq other name))
  where
    shift :
        (b : Bool)
        → (if b then lines ++ line ∷ [] else lines) ++ lines_of name rest
          ≡ lines ++ (if b then line ∷ lines_of name rest else lines_of name rest)
    shift true = append_assoc lines (line ∷ []) (lines_of name rest)
    shift false = refl

-- A request for no lines gets them all.
abbrev pub asked : ℕ → ℕ
asked zero = 500
asked (suc n) = suc n

get_history-get_or :
    (name : String) (tail : ℕ) (lines : List String) (history : Map (List String))
    → Stored name lines history
    → get_history name tail history ≡ take_last (min (asked tail) backfill_limit) lines
unfolding get_history tail_of
get_history-get_or name tail lines history = by_entry tail (lookup name history)
  where
    by_entry :
        (tail : ℕ) (o : Option (List String))
        → get_or o [] ≡ take_last backfill_limit lines
        → tail_of tail o ≡ take_last (min (asked tail) backfill_limit) lines
    by_entry zero none h = h
    by_entry zero (some buf) h = h
    by_entry (suc n) none h =
        sym (drop-nil (0 - suc n))
        ∙ ap (take_last (suc n)) h
        ∙ take_last-take_last (suc n) backfill_limit lines
    by_entry (suc n) (some buf) h =
        ap (take_last (suc n)) h ∙ take_last-take_last (suc n) backfill_limit lines

-- However the lines of the containers come in between each other, a request for the last `tail`
-- lines of one gets exactly its last lines, as many as asked for and at most 500; a request for 0
-- gets the last 500.
pub get_history_exact :
    (name : String) (tail : ℕ) (es : List (String × String))
    → get_history name tail (push_all es [])
      ≡ take_last (min (asked tail) backfill_limit) (lines_of name es)
unfolding lookup
get_history_exact name tail es =
    get_history-get_or name tail (lines_of name es) (push_all es [])
      (push_all-Stored name es [] [] refl)
