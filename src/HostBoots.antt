-- ===== src/HostBoots.antt =====
-- src/host-boots.ts: which boots of the host ended without a clean stop. The files of /proc and the
-- clock are arguments. The stored record is a value; that JSON gives it back as it was written is
-- taken for granted here.
mod Examples
pub mod History
use signalk_doctor_server.Common.{
  ℕ, Bool, true, false, ◌&&◌, ◌||◌, not, Option, none, some, List, [], ◌∷◌, ◌++◌, String, str_eq,
  if◌then◌else◌, leb, ◌==◌, all, length, take_last, get_or, option_map,
}
use signalk_doctor_server.Common.Text.{codes, contains_i, is_digit}

pub record UncleanRestart : Type 0 where
  pub boot_id : String
  pub doctor_started_at : String
  pub host_booted_at : Option String
  pub detected_at : String
  pub under_voltage_at : Option String

pub record HostBootState : Type 0 where
  pub boot_id : String
  pub started_at : String
  pub clean_stop : Bool
  pub tracking_since : String
  pub unclean : List UncleanRestart
  pub under_voltage_at : Option String

abbrev pub max_unclean : ℕ
max_unclean = 20

-- `[0-9a-f-]`
abbrev is_boot_id_char : ℕ → Bool
is_boot_id_char c = is_digit c || (leb b'a' c && leb c b'f') || c == b'-'

abbrev pub is_boot_id : List ℕ → Bool
is_boot_id text = length text == 36 && all is_boot_id_char text

-- The record on disk and the one in memory.
pub record Boots : Type 0 where
  pub stored : Option HostBootState
  pub current : Option HostBootState

-- What a start reads: `none` where a file cannot be read. `boot_id` is the text of the file,
-- trimmed.
pub record Host : Type 0 where
  pub os_release : Option String
  pub boot_id : Option String
  pub booted_at : Option String

unfoldable pub is_wsl : Option String → Bool
unfolding contains_i
is_wsl none = false
is_wsl (some release) = contains_i (codes "microsoft") (codes release)

unfoldable pub read_boot_id : Option String → Option String
read_boot_id none = none
read_boot_id (some id) = if is_boot_id (codes id) then some id else none

abbrev unclean_of : Option HostBootState → List UncleanRestart
unclean_of none = []
unclean_of (some prev) = prev.unclean

abbrev restart_of : HostBootState → Option String → String → UncleanRestart
restart_of prev booted_at now = record {
  boot_id = prev.boot_id;
  doctor_started_at = prev.started_at;
  host_booted_at = booted_at;
  detected_at = now;
  under_voltage_at = prev.under_voltage_at;
}

-- The list of unclean restarts, with the previous boot if that one ended without a clean stop.
unfoldable pub with_previous :
    Option HostBootState → String → Option String → String → List UncleanRestart
with_previous none boot_id booted_at now = []
with_previous (some prev) boot_id booted_at now =
    if not (str_eq prev.boot_id boot_id) && not prev.clean_stop
    then prev.unclean ++ restart_of prev booted_at now ∷ []
    else prev.unclean

-- A doctor restart within the same boot keeps what it already saw.
abbrev seen_voltage : Option HostBootState → String → Option String
seen_voltage none boot_id = none
seen_voltage (some prev) boot_id =
    if str_eq prev.boot_id boot_id then prev.under_voltage_at else none

unfoldable pub next_state : Option HostBootState → String → Option String → String → HostBootState
unfolding with_previous
next_state prev boot_id booted_at now = record {
  boot_id = boot_id;
  started_at = now;
  clean_stop = false;
  tracking_since = get_or (option_map (λ p. p.tracking_since) prev) now;
  unclean = take_last max_unclean (with_previous prev boot_id booted_at now);
  under_voltage_at = seen_voltage prev boot_id;
}

pub data Recorded : Type 0 where
  not_recorded write_threw : Recorded
  recorded : HostBootState → Recorded

store : Bool → HostBootState → Boots → Boots × Recorded
store true next b = (record { stored = some next; current = some next }, recorded next)
store false next b = (b, write_threw)

at_boot : Bool → Option String → String → Option String → Boots → Boots × Recorded
unfolding next_state store
at_boot writes booted_at now none b = (b, not_recorded)
at_boot writes booted_at now (some boot_id) b =
    store writes (next_state b.stored boot_id booted_at now) b

-- `writes` says whether the write works.
unfoldable pub record_boot : Bool → Host → String → Boots → Boots × Recorded
unfolding at_boot is_wsl read_boot_id
record_boot writes host now b =
    if is_wsl host.os_release
    then (b, not_recorded)
    else at_boot writes host.booted_at now (read_boot_id host.boot_id) b

note_at : String → Boots → HostBootState → Option String → Boots × Bool
note_at now b c (some at) = (b, false)
note_at now b c none =
    let next = record c { under_voltage_at = some now } in
    (record { stored = some next; current = some next }, true)

-- `noteUnderVoltage`, where the write works.
unfoldable pub note_under_voltage : String → Boots → Boots × Bool
unfolding note_at
note_under_voltage now b = elim b.current [
  | none ↦ (b, false)
  | some c ↦ note_at now b c c.under_voltage_at
]

-- A failed write only means that the next start counts this boot as unclean.
unfoldable pub mark_clean_stop_sync : Bool → Boots → Boots
mark_clean_stop_sync writes b = elim b.current [
  | none ↦ b
  | some c ↦ if writes then record b { stored = some (record c { clean_stop = true }) } else b
]
