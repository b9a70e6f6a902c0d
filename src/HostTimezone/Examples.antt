-- ===== src/HostTimezone/Examples.antt =====
-- A host that is on Europe/Berlin.
use signalk_doctor_server.Common.{ℕ, ◌≡◌, ◌↔◌, refl, true, some, none, List, String}
use signalk_doctor_server.Common.Strings.{trim_text}
use signalk_doctor_server.HostTimezone.{
  Event, closes, host_zone, kept_output, timeout_ms, is_valid_zone, systemd_run_args,
  read_host_timezone,
}
use signalk_doctor_server.HostTimezone.Trusted.{IsZone, Wrote, read_host_timezone-IsZone_iff}

abbrev digits : ℕ → String
digits n = ""

abbrev child : List String → Event
child args = closes 40 (some 0) "Europe/Berlin\n" ""

berlin : read_host_timezone digits (λ s. s) (λ z. true) none child ≡ host_zone "Europe/Berlin"
unfolding read_host_timezone is_valid_zone trim_text timeout_ms kept_output
berlin = refl

read_host_timezone-IsZone_iff_example :
    (read_host_timezone digits (λ s. s) (λ z. true) none child ≡ host_zone "Europe/Berlin") ↔ (
      Wrote digits
        (λ s. s)
        (λ z. true)
        (timeout_ms none)
        (child (systemd_run_args digits (timeout_ms none)))
        "Europe/Berlin"
      × IsZone digits (λ s. s) (λ z. true) "Europe/Berlin")
read_host_timezone-IsZone_iff_example =
    read_host_timezone-IsZone_iff digits (λ s. s) (λ z. true) none child "Europe/Berlin"
