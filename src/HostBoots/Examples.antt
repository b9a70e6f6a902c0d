-- ===== src/HostBoots/Examples.antt =====
-- Three runs of the doctor: killed twice in one boot, then started in the next.
use signalk_doctor_server.Common.{◌≡◌, refl, Bool, true, false, none, some, List, [], ◌∷◌, String}
use signalk_doctor_server.HostBoots.{is_wsl}
use signalk_doctor_server.HostBoots.History.{
  Session, run_sessions, stored_crashes, unclean_are_crashes,
}

abbrev first_boot : String
first_boot = "00000000-0000-4000-8000-000000000001"

abbrev second_boot : String
second_boot = "00000000-0000-4000-8000-000000000002"

abbrev session : String → Bool → Session
session boot clean = record {
  os_release = some "6.1.0-rpi";
  boot = boot;
  booted_at = none;
  started_at = "t";
  alarm = some "t";
  clean = clean;
}

abbrev sessions : List Session
sessions = session first_boot false ∷ session first_boot false ∷ session second_boot true ∷ []

unclean_are_crashes_example :
    stored_crashes (run_sessions sessions (record { stored = none; current = none }))
    ≡ first_boot ∷ []
unfolding is_wsl
unclean_are_crashes_example =
    unclean_are_crashes sessions ((refl, refl), ((refl, refl), ((refl, refl), tt)))
