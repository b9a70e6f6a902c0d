-- ===== src/LogHistory.antt =====
-- src/routes/logs-stream.ts: the recent lines of each container, and what a new client is sent.
-- `Number.parseInt` is an argument.
mod Examples
pub mod Ring
use signalk_doctor_server.Common.{
  ℕ, zero, suc, ◌-◌, min, max, Bool, false, ◌&&◌, ◌||◌, Option, none, some, List, [], ◌∷◌, ◌++◌,
  String, str_eq, if◌then◌else◌, ltb, leb, ◌==◌, all, length, drop, take_last, get_or,
}
use signalk_doctor_server.Common.Maps.{Map, lookup, insert}
use signalk_doctor_server.Common.Text.{is_digit, lower}

abbrev pub backfill_limit : ℕ
backfill_limit = 500

-- `splice(0, length - limit)` where the list is too long.
abbrev trimmed : List String → List String
trimmed buf =
    if ltb backfill_limit (length buf) then drop (length buf - backfill_limit) buf else buf

unfoldable pub push_history : String → String → Map (List String) → Map (List String)
push_history name line history =
    insert name (trimmed (get_or (lookup name history) [] ++ line ∷ [])) history

-- `buf.slice(-tail)`, which for 0 is the whole list.
tail_of : ℕ → Option (List String) → List String
tail_of tail none = []
tail_of zero (some buf) = buf
tail_of (suc n) (some buf) = take_last (suc n) buf

unfoldable pub get_history : String → ℕ → Map (List String) → List String
unfolding tail_of
get_history name tail history = tail_of tail (lookup name history)

-- `/^[a-z0-9][-_a-z0-9]*$/i`
abbrev is_alphanumeric : ℕ → Bool
is_alphanumeric c = is_digit c || (leb b'a' (lower c) && leb (lower c) b'z')

abbrev is_name_char : ℕ → Bool
is_name_char c = is_alphanumeric c || c == b'-' || c == b'_'

unfoldable pub is_container_name : List ℕ → Bool
is_container_name [] = false
is_container_name (c ∷ text) = is_alphanumeric c && all is_name_char text

-- What `Number.parseInt` gives.
pub data ParsedInt : Type 0 where
  nan negative : ParsedInt
  natural : ℕ → ParsedInt

-- `parsed || 200`, cut off at 0 from below: NaN and 0 count as 200.
abbrev pub or_200 : ParsedInt → ℕ
or_200 nan = 200
or_200 negative = 0
or_200 (natural zero) = 200
or_200 (natural (suc n)) = suc n

-- `Math.max(1, Math.min(5000, Number.parseInt(tail ?? '200', 10) || 200))`
unfoldable pub tail_param : (String → ParsedInt) → Option String → ℕ
tail_param parse_int tail = max 1 (min 5000 (or_200 (parse_int (get_or tail "200"))))

-- One past the last place of a line, 0 where it does not occur.
past_last : String → List String → ℕ
past_last line [] = 0
past_last line (l ∷ ls) =
    let later = past_last line ls in
    if ltb 0 later then suc later else if str_eq l line then 1 else 0

last_line : List String → Option String
last_line [] = none
last_line (l ∷ []) = some l
last_line (l ∷ k ∷ ls) = last_line (k ∷ ls)

drain_start : Option String → List String → ℕ
unfolding past_last
drain_start none buffered = 0
drain_start (some line) buffered = past_last line buffered

-- What a new client is sent before it goes live: the history, and the lines buffered meanwhile
-- but for those that the history has.
unfoldable pub backfill : List String → List String → List String
unfolding drain_start last_line
backfill history buffered = history ++ drop (drain_start (last_line history) buffered) buffered
