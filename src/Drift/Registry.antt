-- ===== src/Drift/Registry.antt =====
-- src/drift/npm-registry.ts: the latest version of a package. What `fetch` gives is an argument.
pub mod Echo
use signalk_doctor_server.Common.{
  ℕ, ◌&&◌, Option, none, some, String, str_eq, ◌^^◌, if◌then◌else◌, leb, ◌==◌, get_or,
}
use signalk_doctor_server.Common.Json.{Json, null, get_field, as_string}

pub data NpmRegistryResult : Type 0 where
  fetched : (version : String) (etag : Option String) → NpmRegistryResult
  not_modified : (etag : String) → NpmRegistryResult
  offline registry_error : (detail : String) → NpmRegistryResult

-- The body of an answer: `res.json()` throws, or gives a value.
pub data Body : Type 0 where
  unreadable : (message : String) → Body
  readable : Json → Body

-- `fetch` throws (no network, or aborted after five seconds), or answers.
pub data Response : Type 0 where
  no_answer : (message : String) → Response
  answer : (status : ℕ) (etag : Option String) → Body → Response

-- `if (previousEtag) headers['If-None-Match'] = previousEtag`
abbrev pub if_none_match : Option String → Option String
if_none_match none = none
if_none_match (some etag) = if str_eq etag "" then none else some etag

versioned : Option String → Option String → NpmRegistryResult
versioned etag none = registry_error "response missing `version`"
versioned etag (some version) = fetched version etag

-- Reading a property of `null` throws, which the catch answers as offline.
read_body : Option String → Body → NpmRegistryResult
unfolding versioned
read_body etag (unreadable message) = offline message
read_body etag (readable null) = offline "Cannot read properties of null (reading 'version')"
read_body etag (readable v) = versioned etag (as_string (get_field "version" v))

module _ (decimal : ℕ → String) where
  read_response : String → Option String → Response → NpmRegistryResult
  unfolding read_body
  read_response url previous (no_answer message) = offline message
  read_response url previous (answer status etag body) =
      if status == 304
      then not_modified (get_or previous "")
      else if leb 200 status && leb status 299
      then read_body etag body
      else registry_error ("HTTP " ^^ decimal status ^^ " from " ^^ url)

  -- `fetch` gets the url and the header `If-None-Match`.
  unfoldable pub get_latest_version :
      {W : Type 0}
      → (String → Option String → W → Response × W)
      → (String → String)
      → String
      → Option String
      → W
      → NpmRegistryResult × W
  unfolding read_response
  get_latest_version http_fetch url_of name previous w =
      let (response, after) = http_fetch (url_of name) (if_none_match previous) w in
      (read_response (url_of name) previous response, after)
