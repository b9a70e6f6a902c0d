-- ===== src/Drift/Registry/Echo.antt =====
-- What the registry client promises the scanner: a 304 echoes the etag of the request.
use signalk_doctor_server.Common.{ℕ, ◌≡◌, Option, none, some, String, arith, get_or}
use signalk_doctor_server.Common.Json.{null, num, bool, str, arr, obj}
use signalk_doctor_server.Drift.Registry.{
  NpmRegistryResult, fetched, not_modified, offline, registry_error, Response, no_answer, answer,
  Body, readable, unreadable, read_response, read_body, versioned, get_latest_version,
  if_none_match,
}

abbrev pub IsEcho : Option String → NpmRegistryResult → Type 0
IsEcho previous (fetched version etag) = Unit
IsEcho previous (not_modified etag) = etag ≡ get_or previous ""
IsEcho previous (offline detail) = Unit
IsEcho previous (registry_error detail) = Unit

versioned-IsEcho :
    (previous etag : Option String) (v : Option String) → IsEcho previous (versioned etag v)
unfolding versioned
versioned-IsEcho previous etag none = tt
versioned-IsEcho previous etag (some v) = tt

body-IsEcho : (previous etag : Option String) (b : Body) → IsEcho previous (read_body etag b)
unfolding read_body
body-IsEcho previous etag (unreadable m) = tt
body-IsEcho previous etag (readable null) = tt
body-IsEcho previous etag (readable num) = versioned-IsEcho previous etag _
body-IsEcho previous etag (readable (bool b)) = versioned-IsEcho previous etag _
body-IsEcho previous etag (readable (str s)) = versioned-IsEcho previous etag _
body-IsEcho previous etag (readable (arr vs)) = versioned-IsEcho previous etag _
body-IsEcho previous etag (readable (obj fs)) = versioned-IsEcho previous etag _

module _ (decimal : ℕ → String) where
  response-IsEcho :
      (url : String) (previous : Option String) (r : Response)
      → IsEcho previous (read_response decimal url previous r)
  unfolding read_response
  response-IsEcho url previous (no_answer m) = tt
  response-IsEcho url previous (answer status etag b) = ground (body-IsEcho previous etag b, arith)

  pub get_latest_version-IsEcho :
      {W : Type 0} (http_fetch : String → Option String → W → Response × W)
      (url_of : String → String) (name : String) (previous : Option String) (w : W)
      → IsEcho previous (get_latest_version decimal http_fetch url_of name previous w).0
  unfolding get_latest_version
  get_latest_version-IsEcho http_fetch url_of name previous w =
      response-IsEcho (url_of name) previous (http_fetch (url_of name) (if_none_match previous) w).0
