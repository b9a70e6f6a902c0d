-- ===== src/Podman/Client.antt =====
-- src/podman/client.ts: finding the container runtime, once. What `stat` and `version` give is an
-- argument; `R` is the client that dockerode makes.
mod Examples
pub mod Once
use signalk_doctor_server.Common.{
  ℕ, suc, ◌≡◌, Bool, true, false, ◌||◌, Option, none, some, List, [], ◌∷◌, String, if◌then◌else◌,
  any, is_some,
}
use signalk_doctor_server.Common.Text.{codes, contains_i, codes_eq}

pub data RuntimeKind : Type 0 where
  podman docker unknown : RuntimeKind

-- The first candidate that is a socket; `stat` that throws counts as no.
unfoldable pub pick_socket : (String → Bool) → List String → Option String
pick_socket is_socket [] = none
pick_socket is_socket (candidate ∷ rest) =
    let later = pick_socket is_socket rest in if is_socket candidate then some candidate else later

-- What `client.version()` gives: the names of the components, absent ones as empty texts, and the
-- name of the platform.
pub record Version : Type 0 where
  pub components : List String
  pub platform_name : Option String

abbrev names_podman : String → Bool
names_podman name = contains_i (codes "podman") (codes name)

-- `/suffix$/`
ends : List ℕ → List ℕ → Bool
ends suffix [] = codes_eq suffix []
ends suffix (c ∷ text) = codes_eq suffix (c ∷ text) || ends suffix text

abbrev platform_is_podman : Option String → Bool
platform_is_podman none = false
platform_is_podman (some name) = names_podman name

-- `none` where `version` throws: then the path of the socket tells.
unfoldable pub detect_kind : Option Version → String → RuntimeKind
unfolding ends contains_i
detect_kind none socket_path =
    if ends (codes "/podman/podman.sock") (codes socket_path) then podman else unknown
detect_kind (some v) socket_path =
    if any names_podman v.components || platform_is_podman v.platform_name then podman else docker

-- `waiting` counts the callers that wait for the detection in flight, which is `asking` once it
-- has a socket and has called `version`; `detections` counts those begun, `asks` the calls of
-- `version`, and `socketless` the detections that found no socket. The code keeps none of the five.
pub record Cache (R : Type 0) : Type 0 where
  pub cached_runtime : Option R
  pub in_flight : Bool
  pub asking : Bool
  pub waiting : ℕ
  pub detections : ℕ
  pub asks : ℕ
  pub socketless : ℕ

abbrev pub empty_cache : {R : Type 0} → Cache R
empty_cache = record {
  cached_runtime = none;
  in_flight = false;
  asking = false;
  waiting = 0;
  detections = 0;
  asks = 0;
  socketless = 0;
}

module _ {R : Type 0} where
  -- The part of `resolveRuntime` before the wait.
  unfoldable pub resolve_runtime : Cache R → Cache R
  resolve_runtime c = if is_some c.cached_runtime then c else record c {
    in_flight = true;
    waiting = suc c.waiting;
    detections = if c.in_flight then c.detections else suc c.detections;
  }

  -- A socket is there, and its daemon is asked.
  unfoldable pub ask_version : Cache R → Cache R
  ask_version c = record c { asking = true; asks = suc c.asks }

  -- The detection ends, and all that wait go on, before any new call.
  unfoldable pub detected : Option R → Cache R → Cache R
  detected none c = record c {
    in_flight = false;
    asking = false;
    waiting = 0;
    socketless = suc c.socketless;
  }
  detected (some r) c = record c {
    cached_runtime = some r;
    in_flight = false;
    asking = false;
    waiting = 0;
  }

  -- A detection without a socket asks nobody; one with a socket has a runtime in the end, whether
  -- `version` answers or throws.
  pub data Step : Cache R → Cache R → Type 0 where
    calls : (c : Cache R) → Step c (resolve_runtime c)
    asks : (c : Cache R) → c.in_flight ≡ true → c.asking ≡ false → Step c (ask_version c)
    no_socket : (c : Cache R) → c.in_flight ≡ true → c.asking ≡ false → Step c (detected none c)
    answered : (c : Cache R) (found : R) → c.asking ≡ true → Step c (detected (some found) c)

  pub data Reachable : Cache R → Type 0 where
    fresh : Reachable empty_cache
    later : (c d : Cache R) → Reachable c → Step c d → Reachable d
