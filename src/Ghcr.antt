-- ===== src/Ghcr.antt =====
-- src/ghcr.ts: the tags of an image from the registry, page by page, and their cache. What fetch
-- answers, the URL and date parsers and the clock are arguments. The loop over the pages runs on
-- fuel, and `none` is a loop that goes on.
mod Examples
pub mod Paging
pub mod Listing
pub mod Fresh
use signalk_doctor_server.Common.{
  ℕ, zero, suc, ◌-◌, Bool, ◌&&◌, ◌||◌, not, Option, none, some, List, [], ◌∷◌, ◌++◌, String, ◌^^◌,
  if◌then◌else◌, leb, ltb, ◌==◌, get_or, take_last,
}
use signalk_doctor_server.Common.Maps.{Map, lookup, insert}
use signalk_doctor_server.Common.Strings.{truthy}
use signalk_doctor_server.Common.Text.{codes, contains_i, is_nil}
use signalk_doctor_server.Images.Tags.{Channel, classify_channel}
use signalk_doctor_server.Errors.{CategorizedError, categorize_error}

-- `Tag` of src/types.ts
pub record Tag : Type 0 where
  pub name : String
  pub channel : Channel
  pub digest : String
  pub pushed_at : String

pub record CacheEntry : Type 0 where
  pub tags : List Tag
  pub fetched_at : ℕ

abbrev pub ttl_ms : ℕ
ttl_ms = 21600000

-- The newest 80 names are looked up.
abbrev pub max_manifests : ℕ
max_manifests = 80

pub data TokenAnswer : Type 0 where
  no_token_answer : TokenAnswer
  token_answer : (status : ℕ) → (token : Option String) → TokenAnswer

pub data PageAnswer : Type 0 where
  page_threw : String → PageAnswer
  page_answer : (status : ℕ) → (tags : Option (List String)) → (link : Option (List ℕ)) → PageAnswer

-- A thrown answer stands for a body that is not JSON, too.
pub data ManifestAnswer : Type 0 where
  manifest_threw : ManifestAnswer
  manifest_answer : (status : ℕ) → (digest last_modified : Option String) → ManifestAnswer

pub data Resolved : Type 0 where
  url : String → Resolved
  bad_url : String → Resolved

pub record Env : Type 0 where
  pub token : (url : String) → TokenAnswer
  pub page : (url token : String) → PageAnswer
  pub manifest : (image name token : String) → ManifestAnswer
  -- `new URL(target, 'https://ghcr.io').toString()`
  pub resolve : List ℕ → Resolved
  -- `new Date(text).toISOString()`, which throws on what is no date.
  pub iso_date : String → Option String
  pub iso : ℕ → String
  pub now_iso : String
  pub decimal : ℕ → String

pub data Ended (A : Type 0) : Type 0 where
  returned : A → Ended A
  threw : String → Ended A

-- `res.ok`
abbrev pub is_ok : ℕ → Bool
is_ok status = leb 200 status && ltb status 300

token_of : TokenAnswer → Option String
token_of no_token_answer = none
token_of (token_answer status token) = if is_ok status then token else none

unfoldable pub get_anon_token : Env → String → Option String
unfolding token_of
get_anon_token env image =
    token_of
      (env.token ("https://ghcr.io/token?scope=repository:" ^^ image ^^ ":pull&service=ghcr.io"))

-- Up to the next `>`; none without one.
to_close : List ℕ → Option (List ℕ)
to_close [] = none
to_close (c ∷ text) =
    let rest = to_close text in
    if c == b'>' then some [] else elim rest [ none ↦ none | some t ↦ some (c ∷ t) ]

target_here : List ℕ → Option (List ℕ)
unfolding to_close
target_here text = elim (to_close text) [ none ↦ none | some t ↦ if is_nil t then none else some t ]

-- `/<([^>]+)>/`
unfoldable pub link_target : List ℕ → Option (List ℕ)
unfolding target_here
link_target [] = none
link_target (c ∷ text) =
    let later = link_target text in
    if c == b'<' then elim (target_here text) [ none ↦ later | some t ↦ some t ] else later

-- `/rel="?next"?/i`
abbrev pub says_next : List ℕ → Bool
says_next link = contains_i (codes "rel=\"next") link || contains_i (codes "rel=next") link

-- The URL of the next page; `none` ends the loop.
unfoldable pub next_url : Env → Option (List ℕ) → Ended (Option String)
unfolding link_target contains_i
next_url env none = returned none
next_url env (some link) =
    let target = if says_next link then link_target link else none in
    elim target [
      | none ↦ returned none
      | some t ↦ elim (env.resolve t) [ url u ↦ returned (some u) | bad_url e ↦ threw e ]
    ]

-- What one round adds, and where it goes on.
unfoldable pub read_page : Env → PageAnswer → Ended (List String × Option String)
unfolding next_url
read_page env (page_threw e) = threw e
read_page env (page_answer status tags link) =
    if is_ok status
    then elim (next_url env link) [
      | returned next ↦ returned (get_or tags [], next)
      | threw e ↦ threw e
    ]
    else threw ("tags/list: HTTP " ^^ env.decimal status)

unfoldable pub fetch_pages :
    ℕ → Env → String → Option String → List String → Option (Ended (List String))
unfolding read_page
fetch_pages fuel env token none all = some (returned all)
fetch_pages zero env token (some u) all = none
fetch_pages (suc fuel) env token (some u) all = elim (read_page env (env.page u token)) [
  | threw e ↦ some (threw e)
  | returned (tags, next) ↦ fetch_pages fuel env token next (all ++ tags)
]

abbrev pub first_page : String → String
first_page image = "https://ghcr.io/v2/" ^^ image ^^ "/tags/list?n=100"

unfoldable pub fetch_tag_list : ℕ → Env → String → String → Option (Ended (List String))
unfolding fetch_pages
fetch_tag_list fuel env image token = fetch_pages fuel env token (some (first_page image)) []

pushed_of : Env → Option String → Option String
pushed_of env none = some env.now_iso
pushed_of env (some last_modified) = env.iso_date last_modified

-- The digest and the time of a manifest; `none` where it throws.
unfoldable pub manifest_of : Env → ManifestAnswer → Option (String × String)
unfolding pushed_of
manifest_of env manifest_threw = none
manifest_of env (manifest_answer status digest last_modified) =
    if is_ok status
    then elim (pushed_of env (truthy last_modified)) [
      | none ↦ none
      | some pushed ↦ some (get_or digest "", pushed)
    ]
    else none

tag_here : String → Option (String × String) → List Tag → List Tag
unfolding classify_channel
tag_here name none later = later
tag_here name (some (digest, pushed)) later =
    record { name = name; channel = classify_channel name; digest = digest; pushed_at = pushed }
    ∷ later

-- A tag whose manifest cannot be fetched is left out.
unfoldable pub read_tags : Env → (image token : String) → List String → List Tag
unfolding tag_here manifest_of
read_tags env image token [] = []
read_tags env image token (name ∷ names) =
    tag_here name (manifest_of env (env.manifest image name token))
      (read_tags env image token names)

pub data ListTags : Type 0 where
  listed : (tags : List Tag) → (cached_at : String) → ListTags
  not_listed : CategorizedError → ListTags

after_names :
    Env
    → (image token : String) → (done : ℕ) → Map CacheEntry
    → Ended (List String)
    → Map CacheEntry × ListTags
unfolding read_tags categorize_error
after_names env image token done cache (threw e) = (cache, not_listed (categorize_error e))
after_names env image token done cache (returned names) =
    let tags = read_tags env image token (take_last max_manifests names) in
    (insert image (record { tags = tags; fetched_at = done }) cache, listed tags env.now_iso)

with_token :
    ℕ
    → Env
    → String
    → (done : ℕ) → Map CacheEntry
    → Option String
    → Option (Map CacheEntry × ListTags)
unfolding after_names fetch_tag_list categorize_error
with_token fuel env image done cache none =
    some (cache, not_listed (categorize_error "ghcr: failed to obtain anonymous pull token"))
with_token fuel env image done cache (some token) = elim (fetch_tag_list fuel env image token) [
  | none ↦ none
  | some names ↦ some (after_names env image token done cache names)
]

-- An entry that is young enough.
unfoldable pub usable : (force : Bool) → (now : ℕ) → Option CacheEntry → Option CacheEntry
usable force now none = none
usable force now (some e) = if not force && ltb (now - e.fetched_at) ttl_ms then some e else none

from_cache :
    ℕ
    → Env
    → String
    → (done : ℕ) → Map CacheEntry
    → Option CacheEntry
    → Option (Map CacheEntry × ListTags)
unfolding with_token get_anon_token
from_cache fuel env image done cache (some e) = some (cache, listed e.tags (env.iso e.fetched_at))
from_cache fuel env image done cache none =
    with_token fuel env image done cache (truthy (get_anon_token env image))

-- `listTags`, begun at `now` and done at `done`.
unfoldable pub list_tags :
    ℕ
    → Env
    → String
    → (force : Bool) → (now done : ℕ) → Map CacheEntry
    → Option (Map CacheEntry × ListTags)
unfolding from_cache usable
list_tags fuel env image force now done cache =
    from_cache fuel env image done cache (usable force now (lookup image cache))
