-- ===== src/Auth/Examples.antt =====
-- A token file that is written anew under the same path, and requests around it.
use signalk_doctor_server.Common.{
  ◌≡◌, ◌≢◌, ◌↔◌, refl, ◌⊎◌, none, some, List, ◌∷◌, [], ℕ, str_eq, In, if◌then◌else◌,
}
use signalk_doctor_server.Common.Text.{codes, codes_eq, trim, strip_i}
use signalk_doctor_server.Auth.{
  Cache, no_cache, Files, cached, load_token, after_bearer, Headers, bearer, extract_token, passed,
  refused, require_token, get_session,
}
use signalk_doctor_server.Auth.Held.{start, request, sight, require_token-WasHeld}
use signalk_doctor_server.Auth.Issued.{bearing, require_token-get_session_iff}

abbrev first : Files
first path = if str_eq path "/data/token" then some (codes " abc\n") else none

abbrev second : Files
second path = if str_eq path "/data/token" then some (codes "def") else none

abbrev abc : Headers
abc = bearing (codes "abc") none

after_first : Cache
after_first = (require_token "/data/token" first abc no_cache).0

case_and_blanks : bearer (codes "bEARER   abc ") ≡ some (codes "abc")
unfolding bearer strip_i after_bearer trim
case_and_blanks = refl

by_x_header :
    extract_token
      (record { authorization = some (codes "Basic x"); x_sk_auth = some (codes "abc") })
    ≡ some (codes "abc")
unfolding extract_token bearer strip_i after_bearer trim
by_x_header = refl

no_file :
    (require_token "/other" first abc no_cache).1
    ≡ refused 503 "auth not initialized: token file missing"
unfolding require_token load_token cached
no_file = refl

-- The token of the file is refused while the old one is cached.
stale :
    (require_token "/data/token" second (bearing (codes "def") none) after_first).1
    ≡ refused 401 "unauthorized"
unfolding after_first require_token load_token cached extract_token bearer strip_i after_bearer trim
    codes_eq
stale = refl

require_token-WasHeld_example :
    (t : List ℕ) × (extract_token abc ≡ some t)
    × (t ≢ [])
    × In ("/data/token", some t) (sight "/data/token" second ∷ sight "/data/token" first ∷ [])
unfolding require_token load_token cached extract_token bearer strip_i after_bearer trim codes_eq
require_token-WasHeld_example =
    require_token-WasHeld (request "/data/token" first abc start) "/data/token" second abc refl

require_token-get_session_iff_example :
    ((require_token "/data/token" second (bearing (codes "def") none) after_first).1 ≡ passed) ↔ (
      (cached after_first "/data/token" ≡ none)
      ⊎ (cached after_first "/data/token" ≡ some (codes "def")))
unfolding get_session trim
require_token-get_session_iff_example =
    require_token-get_session_iff "/data/token" second after_first (codes "def") none refl refl
