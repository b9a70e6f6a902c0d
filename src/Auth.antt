-- ===== src/Auth.antt =====
-- src/auth.ts and src/routes/session.ts: the bearer token that guards what changes state. Tokens and
-- headers are code points; the content of the files is an argument.
mod Examples
pub mod Held
pub mod Issued
use signalk_doctor_server.Common.{
  ℕ, zero, suc, Bool, false, ◌||◌, Option, none, some, List, [], ◌∷◌, String, str_eq, if◌then◌else◌,
  ◌==◌, any,
}
use signalk_doctor_server.Common.Text.{
  codes, codes_eq, is_space, is_nil, trim, is_line_end, strip_i,
}

-- `cachedToken` and `cachedFromPath`
pub record Cache : Type 0 where
  pub token : Option (List ℕ)
  pub from_path : Option String

abbrev pub no_cache : Cache
no_cache = record { token = none; from_path = none }

-- What a file holds; `none` where it cannot be read.
abbrev pub Files : Type 0
Files = String → Option (List ℕ)

-- A token that is not empty.
abbrev pub filled : List ℕ → Option (List ℕ)
filled [] = none
filled (c ∷ t) = some (c ∷ t)

abbrev from_file : Option (List ℕ) → Option (List ℕ)
from_file none = none
from_file (some raw) = filled (trim raw)

kept : Cache → String → Option (List ℕ) → Cache × Option (List ℕ)
kept c path none = (c, none)
kept c path (some t) = (record { token = some t; from_path = some path }, some t)

at_path : Option String → String → Bool
at_path none path = false
at_path (some from) path = str_eq from path

-- The token that is cached for the path; an empty one counts as none.
unfoldable pub cached : Cache → String → Option (List ℕ)
unfolding at_path
cached c path =
    if at_path c.from_path path then elim c.token [ none ↦ none | some t ↦ filled t ] else none

loaded : Cache → String → Files → Option (List ℕ) → Cache × Option (List ℕ)
unfolding kept
loaded c path files (some t) = (c, some t)
loaded c path files none = kept c path (from_file (files path))

unfoldable pub load_token : Cache → String → Files → Cache × Option (List ℕ)
unfolding loaded cached
load_token c path files = loaded c path files (cached c path)

-- `\s+(.+)$`, trimmed. Where nothing but white space is left, its last place is the group.
unfoldable pub after_bearer : (spaces : ℕ) → (last_ends : Bool) → List ℕ → Option (List ℕ)
after_bearer zero ends [] = none
after_bearer (suc zero) ends [] = none
after_bearer (suc (suc n)) ends [] = if ends then none else some []
after_bearer n ends (c ∷ text) =
    let rest = after_bearer (suc n) (is_line_end c) text in
    if is_space c
    then rest
    else if n == 0 || any is_line_end (c ∷ text)
    then none
    else some (trim (c ∷ text))

bearer_rest : Option (List ℕ) → Option (List ℕ)
unfolding after_bearer
bearer_rest none = none
bearer_rest (some rest) = after_bearer 0 false rest

-- `auth.match(/^Bearer\s+(.+)$/i)` and the trimmed group.
unfoldable pub bearer : List ℕ → Option (List ℕ)
unfolding bearer_rest strip_i
bearer auth = bearer_rest (strip_i (codes "Bearer") auth)

pub record Headers : Type 0 where
  pub authorization : Option (List ℕ)
  pub x_sk_auth : Option (List ℕ)

from_x : Option (List ℕ) → Option (List ℕ)
from_x none = none
from_x (some []) = none
from_x (some (c ∷ t)) = some (trim (c ∷ t))

or_x : Option (List ℕ) → Option (List ℕ) → Option (List ℕ)
unfolding from_x
or_x (some t) x = some t
or_x none x = from_x x

with_authorization : Option (List ℕ) → Option (List ℕ) → Option (List ℕ)
unfolding or_x
with_authorization none x = from_x x
with_authorization (some []) x = from_x x
with_authorization (some (c ∷ auth)) x = or_x (bearer (c ∷ auth)) x

unfoldable pub extract_token : Headers → Option (List ℕ)
unfolding with_authorization
extract_token h = with_authorization h.authorization h.x_sk_auth

-- The handler runs, or the reply is sent in its place.
pub data Gate : Type 0 where
  passed : Gate
  refused : (code : ℕ) → (error : String) → Gate

same_token : Option (List ℕ) → List ℕ → Bool
same_token none expected = false
same_token (some got) expected = codes_eq got expected

compared : Option (List ℕ) → Option (List ℕ) → Gate
unfolding same_token
compared none got = refused 503 "auth not initialized: token file missing"
compared (some expected) got =
    if same_token got expected then passed else refused 401 "unauthorized"

-- `requireToken`, the preHandler of the routes that change state.
unfoldable pub require_token : String → Files → Headers → Cache → Cache × Gate
unfolding load_token compared extract_token
require_token path files h c =
    let (c', expected) = load_token c path files in (c', compared expected (extract_token h))

pub data Session : Type 0 where
  token : List ℕ → Session
  unavailable : (code : ℕ) → (error : String) → Session

session_of : Option (List ℕ) → Session
session_of none = unavailable 503 "auth not initialized: token file unreadable"
session_of (some raw) =
    let t = trim raw in
    if is_nil t then unavailable 503 "auth not initialized: empty token file" else token t

-- GET /api/session
unfoldable pub get_session : String → Files → Session
unfolding session_of
get_session path files = session_of (files path)
