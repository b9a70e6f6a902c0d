-- ===== src/Drift/Installed.antt =====
-- src/drift/installed-packages.ts: the versions of the tracked packages, read out of the container.
-- The runtime's inspect and getArchive are an argument, as is the reading of JSON; a text is
-- measured in code points.
mod Examples
pub mod Paths
pub mod Tar
pub mod Walk
pub mod Complete
use Prim.Native.String
use Prim.Native.Char.{code}
use signalk_doctor_server.Common.{
  ℕ, Bool, true, false, ◌&&◌, ◌||◌, Option, none, some, List, [], ◌∷◌, ◌++◌, String, ◌^^◌,
  if◌then◌else◌, ltb, length, get_or,
}
use signalk_doctor_server.Common.Json.{Json, null, num, bool, str, arr, obj, get_field}
use signalk_doctor_server.Common.Text.{codes, lower, is_digit, is_space, starts, contains_i}
use signalk_doctor_server.Common.Strings.{trim_text, take_text}
use signalk_doctor_server.Errors.{
  ErrorKind, network, registry_unavailable, auth, disk, permission, not_found, unknown,
  CategorizedError,
}
use signalk_doctor_server.Drift.Types.{unreachable, runtime}
use signalk_doctor_server.Drift.Scanner.{InstalledPackage, InstalledResult, read, not_read}
use signalk_doctor_server.Drift.Installed.Paths.{
  Target, data_dir_candidate_paths, image_candidate_paths,
}
use signalk_doctor_server.Drift.Installed.Tar.{first_tar_entry}

unfoldable pub tracked_packages : List String
tracked_packages =
    "@canboat/canboatjs" ∷ "@canboat/ts-pgns" ∷ "@signalk/n2k-signalk" ∷ "@signalk/nmea0183-signalk"
    ∷ "@signalk/path-metadata" ∷ "@signalk/server-admin-ui" ∷ "@signalk/server-api"
    ∷ "@signalk/streams" ∷ []

pub data FetchResult : Type 0 where
  value : List ℕ → FetchResult
  error : CategorizedError → FetchResult

-- `probe` inspects the container, `fetch` gets the archive of one path.
pub record ContainerProbe : Type 0 where
  pub probe : FetchResult
  pub fetch : String → FetchResult

-- A read that crashes rejects with a TypeError.
pub data ReadOne : Type 0 where
  found : String → ReadOne
  absent : ReadOne
  failed : String → ReadOne
  crashed : ReadOne

abbrev pub kind_name : ErrorKind → String
kind_name network = "network"
kind_name registry_unavailable = "registry-unavailable"
kind_name auth = "auth"
kind_name disk = "disk"
kind_name permission = "permission"
kind_name not_found = "not-found"
kind_name unknown = "unknown"

-- `\d+\/ns\/mnt`
digits_then : Bool → List ℕ → List ℕ → Bool
unfolding starts
digits_then seen rest [] = false
digits_then seen rest (c ∷ text) =
    (is_digit c && digits_then true rest text) || (seen && starts rest (c ∷ text))

after_proc : List ℕ → List ℕ → Bool
unfolding digits_then
after_proc [] text = digits_then false (codes "/ns/mnt") text
after_proc (p ∷ ps) [] = false
after_proc (p ∷ ps) (c ∷ text) = starts (p ∷ []) (c ∷ []) && after_proc ps text

names_ns : List ℕ → Bool
unfolding after_proc
names_ns [] = false
names_ns (c ∷ text) = after_proc (codes "/proc/") (c ∷ text) || names_ns text

-- `/\/proc\/\d+\/ns\/mnt/i` and `/permission denied/i`
unfoldable pub is_stale_api_namespace_error : String → Bool
unfolding names_ns contains_i
is_stale_api_namespace_error raw =
    names_ns (lower_all (codes raw)) && contains_i (codes "permission denied") (codes raw)
  where
    lower_all : List ℕ → List ℕ
    lower_all [] = []
    lower_all (c ∷ text) = lower c ∷ lower_all text

-- `replace(/\s+/g, ' ')`
one_spaced : Bool → String → String
one_spaced after String.[] = ""
one_spaced after (String.◌∷◌ c s) =
    let here = one_spaced false s in
    let space = one_spaced true s in
    if is_space (code c) then (if after then space else " " ^^ space) else String.◌∷◌ c here

abbrev shortened : String → String
shortened s = if ltb 200 (length (codes s)) then take_text 197 s ^^ "…" else s

unfoldable pub truncate_raw : String → String
unfolding one_spaced trim_text take_text
truncate_raw raw = shortened (trim_text (one_spaced false raw))

abbrev is_permission : ErrorKind → Bool
is_permission permission = true
is_permission _ = false

abbrev pub is_not_found : ErrorKind → Bool
is_not_found not_found = true
is_not_found _ = false

unfoldable pub describe_read_error : CategorizedError → String
unfolding is_stale_api_namespace_error truncate_raw
describe_read_error e =
    if is_permission e.kind && is_stale_api_namespace_error e.raw
    then "permission: the podman API service is in a stale user namespace and cannot read "
      ^^ "signalk-server's files (a shell `podman exec` still works). Fix: `systemctl --user "
      ^^ "restart podman.service`, then restart this container. Re-running the installer also "
      ^^ "repairs it."
    else kind_name e.kind ^^ ": " ^^ e.user_message ^^ " (" ^^ truncate_raw e.raw ^^ ")"

-- What one candidate gives: the version, nothing usable, or an end of the walk.
pub data Look : Type 0 where
  version : String → Look
  nothing : Look
  ends : ReadOne → Look

abbrev with_version : Option Json → Look
with_version (some (str String.[])) = nothing
with_version (some (str (String.◌∷◌ c s))) = version (String.◌∷◌ c s)
with_version _ = nothing

-- `parsed.version` of null throws, and nothing catches it.
look_json : Option Json → Look
unfolding get_field
look_json none = nothing
look_json (some null) = ends crashed
look_json (some num) = nothing
look_json (some (bool b)) = nothing
look_json (some (str s)) = nothing
look_json (some (arr vs)) = nothing
look_json (some (obj fs)) = with_version (get_field "version" (obj fs))

look_entry : (List ℕ → Option Json) → Option (List ℕ) → Look
unfolding look_json
look_entry parse none = nothing
look_entry parse (some entry) = look_json (parse entry)

unfoldable pub look_at : (List ℕ → Option Json) → FetchResult → Look
unfolding look_entry
look_at parse (value buf) = look_entry parse (first_tar_entry buf)
look_at parse (error e) =
    if is_not_found e.kind then nothing else ends (failed (describe_read_error e))

module _ (parse : List ℕ → Option Json) (probe : ContainerProbe) where
  unfoldable pub read_version_at : List String → ReadOne
  read_version_at [] = absent
  read_version_at (path ∷ paths) = elim (look_at parse (probe.fetch path)) [
    | version v ↦ found v
    | nothing ↦ read_version_at paths
    | ends r ↦ r
  ]

-- The state of the loop over the packages.
pub record Reading : Type 0 where
  pub packages : List InstalledPackage
  pub first_runtime_error : Option String

abbrev with_error : String → Reading → Reading
with_error detail r = record r { first_runtime_error = some (get_or r.first_runtime_error detail) }

abbrev with_package : String → Option String → Option String → Reading → Reading
with_package name image data_dir r = record r {
  packages = r.packages ++ record { name = name; image = image; data_dir = data_dir } ∷ [];
}

-- What the two reads of a package add; none where one of them crashes. An error of the data dir
-- comes first.
unfoldable pub after_reads : String → (data_dir image : ReadOne) → Reading → Option Reading
after_reads name crashed image r = none
after_reads name (found d) crashed r = none
after_reads name absent crashed r = none
after_reads name (failed e) crashed r = none
after_reads name (failed e) (found i) r = some (with_error e r)
after_reads name (failed e) absent r = some (with_error e r)
after_reads name (failed e) (failed f) r = some (with_error e r)
after_reads name (found d) (failed f) r = some (with_error f r)
after_reads name absent (failed f) r = some (with_error f r)
after_reads name (found d) (found i) r = some (with_package name (some i) (some d) r)
after_reads name (found d) absent r = some (with_package name none (some d) r)
after_reads name absent (found i) r = some (with_package name (some i) none r)
after_reads name absent absent r = some r

module _ (parse : List ℕ → Option Json) (probe : ContainerProbe) (target : Target) where
  abbrev pub data_dir_of : String → ReadOne
  data_dir_of name = read_version_at parse probe (data_dir_candidate_paths target name)

  abbrev pub image_of : String → ReadOne
  image_of name = read_version_at parse probe (image_candidate_paths target name)

  unfoldable pub read_packages : List String → Reading → Option Reading
  read_packages [] r = some r
  read_packages (name ∷ names) r = elim (after_reads name (data_dir_of name) (image_of name) r) [
    | none ↦ none
    | some next ↦ read_packages names next
  ]

abbrev nothing_read : List InstalledPackage → Option String → InstalledResult
nothing_read [] none = read []
nothing_read [] (some detail) = not_read runtime detail
nothing_read (p ∷ ps) first = read (p ∷ ps)

abbrev finished : Option Reading → Option InstalledResult
finished none = none
finished (some r) = some (nothing_read r.packages r.first_runtime_error)

abbrev not_reached : CategorizedError → String
not_reached e =
    kind_name e.kind
    ^^ ": cannot reach signalk-server ("
    ^^ e.user_message
    ^^ ") ("
    ^^ truncate_raw e.raw
    ^^ ")"

reached : (List ℕ → Option Json) → Target → ContainerProbe → FetchResult → Option InstalledResult
unfolding read_packages
reached parse target probe (error e) = some (not_read runtime (not_reached e))
reached parse target probe (value v) = finished (
    read_packages parse probe target tracked_packages
      (record { packages = []; first_runtime_error = none }))

-- No runtime is `none`; a result of `none` is a rejection.
unfoldable pub read_installed_packages :
    (List ℕ → Option Json) → Target → Option ContainerProbe → Option InstalledResult
unfolding reached
read_installed_packages parse target none =
    some (not_read unreachable "no container runtime socket available")
read_installed_packages parse target (some probe) = reached parse target probe probe.probe
