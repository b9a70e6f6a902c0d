-- ===== src/Drift/Store.antt =====
-- src/drift/store.ts: the report on disk. JSON.parse and JSON.stringify are arguments; a write
-- has the failures of its system calls as an argument.
mod Examples
pub mod RoundTrip
use signalk_doctor_server.Common.{
  Bool, true, false, Option, none, some, List, [], ◌∷◌, String, str_eq, if◌then◌else◌, any,
  option_bind, is_some,
}
use signalk_doctor_server.Common.Json.{
  Json, null, num, bool, str, arr, obj, Items, nil, cons, end, field, get_field, as_string,
  as_array,
}
use signalk_doctor_server.Drift.Types.{
  DriftClassification, up_to_date, patch, minor, major, prerelease, unknown, DriftLocation,
  DriftPackage, DriftFetchReason, unreachable, runtime, DriftFetchError, DriftReport,
}

abbrev pub classification_name : DriftClassification → String
classification_name up_to_date = "up-to-date"
classification_name patch = "patch"
classification_name minor = "minor"
classification_name major = "major"
classification_name prerelease = "prerelease"
classification_name unknown = "unknown"

-- `CLASSIFICATIONS.has(v) ? v : 'unknown'`
unfoldable pub as_classification : Option String → DriftClassification
as_classification none = unknown
as_classification (some s) =
    if str_eq s "up-to-date"
    then up_to_date
    else if str_eq s "patch"
    then patch
    else if str_eq s "minor"
    then minor
    else if str_eq s "major"
    then major
    else if str_eq s "prerelease"
    then prerelease
    else unknown

-- `!value || typeof value !== 'object'`, negated.
abbrev pub is_object : Json → Bool
is_object (obj fs) = true
is_object (arr vs) = true
is_object null = false
is_object num = false
is_object (bool b) = false
is_object (str s) = false

location_of : Json → Option String → Option DriftLocation
unfolding as_classification
location_of v none = none
location_of v (some installed) = some (record {
  installed = installed;
  classification = as_classification (as_string (get_field "classification" v));
})

unfoldable pub as_location : Option Json → Option DriftLocation
unfolding location_of
as_location none = none
as_location (some v) =
    if is_object v then location_of v (as_string (get_field "installed" v)) else none

package_of : Json → Option String → Option DriftPackage
unfolding as_location
package_of v none = none
package_of v (some name) =
    let legacy = is_some (as_string (get_field "installed" v)) in
    if str_eq name ""
    then none
    else some (record {
      name = name;
      image = if legacy then none else as_location (get_field "image" v);
      data_dir = if legacy then none else as_location (get_field "dataDir" v);
      latest = as_string (get_field "latest" v);
      etag = as_string (get_field "etag" v);
      last_fetched_at = as_string (get_field "lastFetchedAt" v);
    })

unfoldable pub migrate_package : Json → Option DriftPackage
unfolding package_of
migrate_package v = if is_object v then package_of v (as_string (get_field "name" v)) else none

keep : Option DriftPackage → List DriftPackage → List DriftPackage
keep none ps = ps
keep (some p) ps = p ∷ ps

-- `.map(migratePackage).filter((p) => p !== null)`
unfoldable pub migrate_all : List Json → List DriftPackage
unfolding migrate_package keep
migrate_all [] = []
migrate_all (v ∷ vs) = keep (migrate_package v) (migrate_all vs)

-- A reason on disk. The test `value in RETIRED_REASON_MAP` also finds what every object inherits.
pub data Reason : Type 0 where
  known : DriftFetchReason → Reason
  inherited refused : Reason

abbrev pub inherited_names : List String
inherited_names =
    "constructor" ∷ "toString" ∷ "toLocaleString" ∷ "valueOf" ∷ "hasOwnProperty" ∷ "isPrototypeOf"
    ∷ "propertyIsEnumerable" ∷ "__proto__" ∷ "__defineGetter__" ∷ "__defineSetter__"
    ∷ "__lookupGetter__" ∷ "__lookupSetter__" ∷ []

abbrev is_one_of : List String → String → Bool
is_one_of names s = any (λ n. str_eq s n) names

unfoldable pub reason_on_disk : String → Reason
reason_on_disk s =
    if is_one_of ("unreachable" ∷ "network" ∷ "no-token" ∷ "auth" ∷ "http" ∷ []) s
    then known unreachable
    else if is_one_of ("runtime" ∷ "not-found" ∷ "bad-payload" ∷ []) s
    then known runtime
    else if is_one_of inherited_names s
    then inherited
    else refused

abbrev pub reason_text : DriftFetchReason → String
reason_text unreachable = "unreachable"
reason_text runtime = "runtime"

-- The field `lastFetchError`: absent, null, well formed, or the report is discarded. With an
-- inherited name the report is kept and its reason becomes a value that is no reason.
pub data FetchError : Type 0 where
  no_error : FetchError
  an_error : DriftFetchError → FetchError
  no_reason malformed : FetchError

error_with : Reason → String → FetchError
error_with (known r) detail = an_error (record { reason = r; detail = detail })
error_with inherited detail = no_reason
error_with refused detail = malformed

error_of : Option String → Option String → FetchError
unfolding error_with reason_on_disk
error_of (some reason) (some detail) = error_with (reason_on_disk reason) detail
error_of none detail = malformed
error_of (some reason) none = malformed

unfoldable pub fetch_error : Option Json → FetchError
unfolding error_of
fetch_error none = no_error
fetch_error (some null) = no_error
fetch_error (some v) =
    if is_object v
    then error_of (as_string (get_field "reason" v)) (as_string (get_field "detail" v))
    else malformed

-- `typeof v === 'string' || v === null`: the value, or none where it is neither.
unfoldable pub nullable : Option Json → Option (Option String)
nullable (some (str s)) = some (some s)
nullable (some null) = some none
nullable _ = none

abbrev as_bool : Option Json → Option Bool
as_bool (some (bool b)) = some b
as_bool _ = none

-- What a load hands over. `ill_typed` is a report whose error has no reason.
pub data Loaded : Type 0 where
  nothing : Loaded
  loaded ill_typed : DriftReport → Loaded

with_error : (Option DriftFetchError → DriftReport) → FetchError → Loaded
with_error report no_error = loaded (report none)
with_error report (an_error e) = loaded (report (some e))
with_error report no_reason = ill_typed (report none)
with_error report malformed = nothing

abbrev OptionalReport : Type 0
OptionalReport = Option (Option DriftFetchError → DriftReport)

infixl 5 ◌>>=◌
abbrev ◌>>=◌ {ℓ κ} : {A : Type ℓ} {B : Type κ} → Option A → (A → Option B) → Option B
m >>= f = option_bind m f

-- The checks of `isDriftReport` but for the error.
report_of : Json → OptionalReport
unfolding nullable migrate_all
report_of v = do
  tag ← nullable (get_field "signalkImageTag" v)
  scanned ← as_string (get_field "lastScannedAt" v)
  successful ← nullable (get_field "lastSuccessfulScanAt" v)
  online ← as_bool (get_field "online" v)
  packages ← as_array (get_field "packages" v)
  some λ error. record {
    signalk_image_tag = tag;
    last_scanned_at = scanned;
    last_successful_scan_at = successful;
    online = online;
    last_fetch_error = error;
    packages = migrate_all packages;
  }

checked : Json → OptionalReport → Loaded
unfolding with_error fetch_error
checked v none = nothing
checked v (some report) = with_error report (fetch_error (get_field "lastFetchError" v))

unfoldable pub read_report : Json → Loaded
unfolding checked report_of
read_report v = if is_object v then checked v (report_of v) else nothing

parsed : Option Json → Loaded
unfolding read_report
parsed none = nothing
parsed (some v) = read_report v

-- The file's text, where it can be read.
unfoldable pub load_drift_report : (String → Option Json) → Option String → Loaded
unfolding parsed
load_drift_report json_parse file = parsed (option_bind file json_parse)

-- What `JSON.stringify` sees.
abbrev pub nullable_json : Option String → Json
nullable_json none = null
nullable_json (some s) = str s

abbrev pub location_json : Option DriftLocation → Json
location_json none = null
location_json (some l) = obj (
    field "installed" (str l.installed)
      (field "classification" (str (classification_name l.classification)) end))

abbrev pub package_json : DriftPackage → Json
package_json p = obj (
    field "name" (str p.name) (
      field "image" (location_json p.image) (
        field "dataDir" (location_json p.data_dir) (
          field "latest" (nullable_json p.latest) (
            field "etag" (nullable_json p.etag)
              (field "lastFetchedAt" (nullable_json p.last_fetched_at) end))))))

abbrev pub packages_json : List DriftPackage → Items
packages_json [] = nil
packages_json (p ∷ ps) = cons (package_json p) (packages_json ps)

abbrev pub error_json : Option DriftFetchError → Json
error_json none = null
error_json (some e) =
    obj (field "reason" (str (reason_text e.reason)) (field "detail" (str e.detail) end))

abbrev pub report_json : DriftReport → Json
report_json r = obj (
    field "signalkImageTag" (nullable_json r.signalk_image_tag) (
      field "lastScannedAt" (str r.last_scanned_at) (
        field "lastSuccessfulScanAt" (nullable_json r.last_successful_scan_at) (
          field "online" (bool r.online) (
            field "lastFetchError" (error_json r.last_fetch_error)
              (field "packages" (arr (packages_json r.packages)) end))))))

-- The failures of one `writeAtomic`: an open that fails, a write or a sync that fails with what
-- it left in the temporary file, a rename that fails, a directory that cannot be synced.
pub data WriteFault : Type 0 where
  no_fault no_open no_rename no_dir_sync : WriteFault
  no_write : (left : String) → WriteFault

pub record Files : Type 0 where
  pub main : Option String
  pub tmp : Option String

-- The Boolean says that the write came back without an error. A write that is shorter than it
-- should be is one that fails.
unfoldable pub write_atomic : WriteFault → String → Files → Files × Bool
write_atomic no_open body files = (files, false)
write_atomic (no_write left) body files = (record files { tmp = some left }, false)
write_atomic no_rename body files = (record files { tmp = some body }, false)
write_atomic no_dir_sync body files = (record { main = some body; tmp = none }, false)
write_atomic no_fault body files = (record { main = some body; tmp = none }, true)

unfoldable pub save_drift_report : (Json → String) → WriteFault → DriftReport → Files → Files × Bool
unfolding write_atomic
save_drift_report json_stringify fault report files =
    write_atomic fault (json_stringify (report_json report)) files
