-- ===== src/Probes/TimezoneDrift/Verdict.antt =====
-- What each status of the probe says.
use signalk_doctor_server.Common.{◌≡◌, true, Option, none, some, String, Empty, All}
use signalk_doctor_server.Common.Strings.{truthy}
use signalk_doctor_server.HostTimezone.{HostTimezoneResult, host_zone, no_zone}
use signalk_doctor_server.Probes.TimezoneDrift.{TimezoneSources, zones_match}

module _ (intl : String → Option String) where
  -- The peer has a zone, and it is the host's.
  abbrev pub OnZone : String → String × Option String → Type 0
  OnZone host (name, none) = Empty
  OnZone host (name, some tz) = zones_match intl tz host ≡ true

  abbrev pub AllOn : HostTimezoneResult → Option String → TimezoneSources → Type 0
  AllOn (no_zone reason detail) server src = Empty
  AllOn (host_zone host) none src = Empty
  AllOn (host_zone host) (some server) src =
      (zones_match intl server host ≡ true)
      × All (OnZone host) src.peers
      × (truthy src.peer_error ≡ none)

  abbrev pub Unreadable : HostTimezoneResult → Option String → Type 0
  Unreadable (no_zone reason detail) server = Unit
  Unreadable (host_zone host) none = Unit
  Unreadable (host_zone host) (some server) = Empty
