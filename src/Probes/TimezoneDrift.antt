-- ===== src/Probes/TimezoneDrift.antt =====
-- src/probes/timezone-drift.ts: the zones of the host, of signalk-server and of the peers against
-- each other. The list and the inspections of the containers are JSON values; what Intl makes of a
-- zone is an argument. `details` is left out.
mod Examples
pub mod Verdict
pub mod Peers
use Prim.Native.String
use Prim.Native.Char.{code}
use signalk_doctor_server.Common.{
  ℕ, Bool, true, false, ◌&&◌, ◌||◌, not, Option, none, some, List, [], ◌∷◌, ◌++◌, String, str_eq,
  ◌^^◌, if◌then◌else◌, ◌==◌, ltb, any, get_or, is_some, map,
}
use signalk_doctor_server.Common.Json.{Json, null, num, bool, str, arr, obj, get_field, as_array}
use signalk_doctor_server.Common.Maps.{Map, insert}
use signalk_doctor_server.Common.Strings.{is_empty, strip_prefix, trim_text, join_with, truthy}
use signalk_doctor_server.Errors.{CategorizedError}
use signalk_doctor_server.Drift.Installed.{kind_name, is_not_found}
use signalk_doctor_server.HostTimezone.{
  FailureReason, timeout, spawn_failed, nonzero_exit, empty, HostTimezoneResult, host_zone, no_zone,
}
use signalk_doctor_server.Drift.Explain.{reason_name}
use signalk_doctor_server.Podman.Exec.{ExecResult, success, failure}
use signalk_doctor_server.Probes.Runner.{ProbeStatus, ok, warn, unknown, ProbeResult}

pub record TimezoneSources : Type 0 where
  pub host : HostTimezoneResult
  pub server : Option String
  pub server_error : Option String
  pub peers : Map (Option String)
  pub peer_error : Option String

abbrev utc_zones : List String
utc_zones = "UTC" ∷ "Etc/UTC" ∷ "GMT" ∷ "Etc/GMT" ∷ "Zulu" ∷ "Universal" ∷ "Etc/Universal" ∷ []

unfoldable pub is_utc : String → Bool
is_utc zone = any (str_eq zone) utc_zones

-- `canonical`: where Intl does not know a zone it stays as it is.
abbrev canonical : (String → Option String) → String → String
canonical intl zone = get_or (intl zone) zone

unfoldable pub zones_match : (String → Option String) → String → String → Bool
zones_match intl a b =
    str_eq a b || (is_utc a && is_utc b) || str_eq (canonical intl a) (canonical intl b)

-- What the exec in the server's container gives, as a zone or an error.
unfoldable pub read_server_zone : ExecResult → Option String × Option String
read_server_zone (failure f) = (none, some (reason_name f.reason ^^ ": " ^^ f.detail))
read_server_zone (success s) =
    if is_empty (trim_text s.output)
    then (none, some "empty zone from Intl")
    else (some (trim_text s.output), none)

-- `n.startsWith('/') ? n.slice(1) : n`
abbrev pub without_slash : String → String
without_slash n = get_or (strip_prefix "/" n) n

abbrev pub is_managed : String → Bool
is_managed name = is_some (strip_prefix "sk-" name) && not (is_some (strip_prefix "sk-job-" name))

-- `Set.add`
add_name : String → List String → List String
add_name name names = if any (str_eq name) names then names else names ++ name ∷ []

add_raw : List Json → List String → List String
unfolding add_name
add_raw [] names = names
add_raw (str n ∷ raw) names =
    let name = without_slash n in
    add_raw raw (if is_managed name then add_name name names else names)
add_raw (null ∷ raw) names = add_raw raw names
add_raw (num ∷ raw) names = add_raw raw names
add_raw (bool b ∷ raw) names = add_raw raw names
add_raw (arr vs ∷ raw) names = add_raw raw names
add_raw (obj fs ∷ raw) names = add_raw raw names

add_entries : List Json → List String → List String
unfolding add_raw
add_entries [] names = names
add_entries (entry ∷ listed) names =
    add_entries listed (add_raw (get_or (as_array (get_field "Names" entry)) []) names)

-- The order of `sort()`, by characters.
before : String → String → Bool
before String.[] t = true
before (String.◌∷◌ c s) String.[] = false
before (String.◌∷◌ c s) (String.◌∷◌ d t) =
    let rest = before s t in ltb (code c) (code d) || (code c == code d && rest)

place : String → List String → List String
unfolding before
place name [] = name ∷ []
place name (n ∷ names) =
    let later = place name names in if before name n then name ∷ n ∷ names else n ∷ later

sort : List String → List String
unfolding place
sort [] = []
sort (n ∷ names) = place n (sort names)

unfoldable pub managed_peer_names : List Json → List String
unfolding add_entries sort
managed_peer_names listed = sort (add_entries listed [])

-- What one inspection gives.
pub data PeerAnswer : Type 0 where
  peer_failed : CategorizedError → PeerAnswer
  peer_info : Json → PeerAnswer

-- `rawEnv.every((e) => typeof e === 'string')`
texts : List Json → Option (List String)
texts [] = some []
texts (str s ∷ vs) = elim (texts vs) [ none ↦ none | some ss ↦ some (s ∷ ss) ]
texts (null ∷ vs) = none
texts (num ∷ vs) = none
texts (bool b ∷ vs) = none
texts (arr ws ∷ vs) = none
texts (obj fs ∷ vs) = none

-- `Config` has to be an object; an array has no `Env`.
env_of : Json → Option (List String)
unfolding texts
env_of info = elim (get_field "Config" info) [
  | none ↦ none
  | some config ↦ elim (as_array (get_field "Env" config)) [ none ↦ none | some vs ↦ texts vs ]
]

-- The first entry that starts with `TZ=`, without it.
unfoldable pub tz_of : List String → Option String
tz_of [] = none
tz_of (e ∷ env) = elim (strip_prefix "TZ=" e) [ some tz ↦ some tz | none ↦ tz_of env ]

-- What is known of a peer: it is gone, its zone cannot be read, or it is this or unset.
pub data PeerZone : Type 0 where
  gone : PeerZone
  unread : String → PeerZone
  zone : Option String → PeerZone

unfoldable pub peer_zone : String → PeerAnswer → PeerZone
unfolding env_of
peer_zone name (peer_failed e) =
    if is_not_found e.kind
    then gone
    else unread (name ^^ ": " ^^ kind_name e.kind ^^ ": " ^^ e.user_message)
peer_zone name (peer_info info) = elim (env_of info) [
  | none ↦ unread (name ^^ ": malformed inspect response (no Config.Env array)")
  | some env ↦ zone (tz_of env)
]

pub record PeerZones : Type 0 where
  pub peers : Map (Option String)
  pub errors : List String

add_peer : String → PeerZone → PeerZones → PeerZones
add_peer name gone z = z
add_peer name (unread e) z = record z { errors = z.errors ++ e ∷ [] }
add_peer name (zone tz) z = record z { peers = insert name tz z.peers }

unfoldable pub read_peers : (String → PeerAnswer) → List String → PeerZones → PeerZones
unfolding add_peer
read_peers inspect [] z = z
read_peers inspect (name ∷ names) z =
    read_peers inspect names (add_peer name (peer_zone name (inspect name)) z)

-- What the list call gives; no runtime is `no_list`.
pub data Listing : Type 0 where
  no_list : Listing
  list_failed : CategorizedError → Listing
  listing : Json → Listing

abbrev joined : List String → Option String
joined [] = none
joined (e ∷ errors) = some (join_with "; " (e ∷ errors))

from_listing : (String → PeerAnswer) → Option (List Json) → Map (Option String) × Option String
from_listing inspect none = ([], some "malformed container list response (not an array)")
from_listing inspect (some vs) =
    let z = read_peers inspect (managed_peer_names vs) (record { peers = []; errors = [] }) in
    (z.peers, joined z.errors)

unfoldable pub read_peer_zones :
    Listing → (String → PeerAnswer) → Map (Option String) × Option String
unfolding from_listing
read_peer_zones no_list inspect = ([], none)
read_peer_zones (list_failed e) inspect =
    ([], some ("listing containers: " ^^ kind_name e.kind ^^ ": " ^^ e.user_message))
read_peer_zones (listing v) inspect = from_listing inspect (as_array (some v))

unfoldable pub gather_sources :
    HostTimezoneResult → ExecResult → Listing → (String → PeerAnswer) → TimezoneSources
gather_sources host exec list inspect =
    let (server, server_error) = read_server_zone exec in
    let (peers, peer_error) = read_peer_zones list inspect in
    record {
      host = host;
      server = server;
      server_error = server_error;
      peers = peers;
      peer_error = peer_error;
    }

abbrev failure_name : FailureReason → String
failure_name timeout = "timeout"
failure_name spawn_failed = "spawn-failed"
failure_name nonzero_exit = "nonzero-exit"
failure_name empty = "empty"

module _ (intl : String → Option String) where
  unfoldable pub peer_warnings : String → Map (Option String) → List String
  peer_warnings host [] = []
  peer_warnings host ((name, none) ∷ peers) =
      ("peer " ^^ name ^^ " has no TZ set while the host is " ^^ host) ∷ peer_warnings host peers
  peer_warnings host ((name, some tz) ∷ peers) =
      let rest = peer_warnings host peers in
      if zones_match intl tz host
      then rest
      else ("peer " ^^ name ^^ " is on " ^^ tz ^^ " but the host is " ^^ host) ∷ rest

  peer_error_warning : Option String → List String
  peer_error_warning e = elim (truthy e) [
    | none ↦ []
    | some e ↦ ("could not read every peer's zone (" ^^ e ^^ ")") ∷ []
  ]

  unfoldable pub warnings_of : String → String → TimezoneSources → List String
  unfolding peer_error_warning
  warnings_of host server src =
      (if zones_match intl server host
        then peer_warnings host src.peers
        else ("signalk-server is on " ^^ server ^^ " but the host is " ^^ host
            ^^ " — restart signalk-server to apply the new zone")
          ∷ [])
      ++ peer_error_warning src.peer_error

  peer_note : List String → String
  peer_note [] = ""
  peer_note (p ∷ ps) = " (peers: " ^^ join_with ", " (p ∷ ps) ^^ ")"

  with_warnings : List String → String → TimezoneSources → ProbeStatus × String
  unfolding peer_note
  with_warnings (w ∷ ws) host src = (warn, join_with "; " (w ∷ ws))
  with_warnings [] host src =
      (ok, "host, signalk-server" ^^ peer_note (map (λ p. p.0) src.peers) ^^ " all on " ^^ host)

  with_server : String → Option String → TimezoneSources → ProbeStatus × String
  unfolding with_warnings
  with_server host none src = (
    unknown,
    "host is "
        ^^ host
        ^^ " but signalk-server's zone is unreadable ("
        ^^ get_or src.server_error "unknown"
        ^^ ")",
  )
  with_server host (some server) src = with_warnings (warnings_of host server src) host src

  with_host : HostTimezoneResult → Option String → TimezoneSources → ProbeStatus × String
  unfolding with_server
  with_host (no_zone reason detail) server src =
      (unknown, "cannot read host timezone (" ^^ failure_name reason ^^ ": " ^^ detail ^^ ")")
  with_host (host_zone host) server src = with_server host server src

  unfoldable pub probe_timezone_drift : TimezoneSources → (duration_ms : ℕ) → ProbeResult
  unfolding with_host
  probe_timezone_drift src duration_ms =
      let (status, message) = with_host src.host src.server src in
      record {
        id = "timezone-drift";
        label = "Timezone drift";
        status = status;
        message = message;
        duration_ms = duration_ms;
      }
