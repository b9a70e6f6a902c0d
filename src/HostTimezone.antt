-- ===== src/HostTimezone.antt =====
-- src/host-timezone.ts: the zone of the host, asked of its user manager. What the spawned
-- systemd-run does is an argument, as is what Intl knows.
mod Examples
pub mod Trusted
use Prim.Native.String
use signalk_doctor_server.Common.{
  ℕ, zero, suc, ◌+◌, ◌-◌, ◌/◌, max, Bool, ◌&&◌, ◌||◌, not, Option, none, some, List, [], ◌∷◌,
  String, ◌^^◌, if◌then◌else◌, leb, ◌==◌, all, length,
}
use signalk_doctor_server.Common.Strings.{trim_text, is_empty}
use signalk_doctor_server.Common.Text.{codes, is_word}

pub data FailureReason : Type 0 where
  timeout spawn_failed nonzero_exit empty : FailureReason

pub data HostTimezoneResult : Type 0 where
  host_zone : String → HostTimezoneResult
  no_zone : FailureReason → (detail : String) → HostTimezoneResult

-- HOST_TZ_TIMEOUT_MS, where it is set and reads as a number.
unfoldable pub timeout_ms : Option (Option ℕ) → ℕ
timeout_ms none = 5000
timeout_ms (some none) = 5000
timeout_ms (some (some zero)) = 5000
timeout_ms (some (some (suc n))) = suc n

-- What the child does first: it closes, or cannot be started, or does neither; and when. The texts
-- are all that it writes.
pub data Event : Type 0 where
  closes : ℕ → (exit : Option ℕ) → (stdout stderr : String) → Event
  fails : ℕ → String → Event
  hangs : Event

pub data SpawnOut : Type 0 where
  exited : Option ℕ → (stdout stderr : String) → SpawnOut
  timed_out : SpawnOut
  not_spawned : String → SpawnOut

drop_text : ℕ → String → String
drop_text zero s = s
drop_text (suc n) String.[] = String.[]
drop_text (suc n) (String.◌∷◌ c s) = drop_text n s

-- The last 10,000 characters of an output.
unfoldable pub kept_output : String → String
unfolding drop_text
kept_output s = drop_text (length (codes s) - 10000) s

-- The timer wins a tie.
unfoldable pub run_systemd_run : Event → ℕ → SpawnOut
run_systemd_run (closes at exit stdout stderr) ms =
    if leb ms at then timed_out else exited exit (kept_output stdout) (kept_output stderr)
run_systemd_run (fails at message) ms = if leb ms at then timed_out else not_spawned message
run_systemd_run hangs ms = timed_out

abbrev is_zone_char : ℕ → Bool
is_zone_char c = is_word c || c == b'+' || c == b'/' || c == b'-'

-- `/^[A-Za-z0-9_+/-]{1,64}$/`, and Intl knows it.
unfoldable pub is_valid_zone : (String → Bool) → String → Bool
is_valid_zone intl_knows z =
    leb 1 (length (codes z))
    && leb (length (codes z)) 64
    && all is_zone_char (codes z)
    && intl_knows z

-- `Math.max(1, Math.ceil(timeoutMs() / 1000))`
unfoldable pub unit_timeout_sec : ℕ → ℕ
unit_timeout_sec ms = max 1 ((ms + 999) / 1000)

module _ (decimal : ℕ → String) where
  unfoldable pub systemd_run_args : ℕ → List String
  unfolding unit_timeout_sec
  systemd_run_args ms =
      "--user"
      ∷ "--pipe"
      ∷ "--wait"
      ∷ "--collect"
      ∷ "--service-type=oneshot"
      ∷ "--quiet"
      ∷ ("--property=TimeoutStartSec=" ^^ decimal (unit_timeout_sec ms))
      ∷ "--"
      ∷ "/bin/sh"
      ∷ "-c"
      ∷ "timedatectl show -p Timezone --value"
      ∷ []

  -- `exitCode ?? -1`
  exit_text : Option ℕ → String
  exit_text none = "-1"
  exit_text (some n) = decimal n

  or_no_stderr : String → String
  or_no_stderr s = if is_empty s then "(no stderr)" else s

  module _ (quoted : String → String) (intl_knows : String → Bool) where
    zone_of : String → HostTimezoneResult
    zone_of zone =
        if is_empty zone || not (is_valid_zone intl_knows zone)
        then no_zone empty ("timedatectl returned no usable zone (" ^^ quoted zone ^^ ")")
        else host_zone zone

    nonzero : Option ℕ → String → HostTimezoneResult
    unfolding exit_text or_no_stderr
    nonzero exit stderr =
        no_zone nonzero_exit
          ("timedatectl exited " ^^ exit_text exit ^^ ": " ^^ or_no_stderr (trim_text stderr))

    after_exit : Option ℕ → String → String → HostTimezoneResult
    unfolding zone_of nonzero
    after_exit none stdout stderr = nonzero none stderr
    after_exit (some zero) stdout stderr = zone_of (trim_text stdout)
    after_exit (some (suc n)) stdout stderr = nonzero (some (suc n)) stderr

    after_run : ℕ → SpawnOut → HostTimezoneResult
    unfolding after_exit
    after_run ms (exited exit stdout stderr) = after_exit exit stdout stderr
    after_run ms timed_out =
        no_zone timeout ("timedatectl did not finish within " ^^ decimal (ms + 1000) ^^ "ms")
    after_run ms (not_spawned message) = no_zone spawn_failed message

    -- What the child does may depend on its arguments.
    unfoldable pub read_host_timezone :
        Option (Option ℕ) → (List String → Event) → HostTimezoneResult
    unfolding after_run run_systemd_run systemd_run_args
    read_host_timezone setting child =
        let ms = timeout_ms setting in
        after_run ms (run_systemd_run (child (systemd_run_args ms)) (ms + 1000))
