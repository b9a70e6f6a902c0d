-- ===== src/Recovery/Examples.antt =====
-- A recovery of two quadlets, one of whose snapshots is gone.
use signalk_doctor_server.Common.{◌≡◌, ◌↔◌, refl, true, none, some, [], ◌∷◌}
use signalk_doctor_server.Common.Maps.{lookup, insert}
use signalk_doctor_server.Recovery.{
  LastGood, no_fault, Machine, Faults, recover_all, restore_all, restart_all, restore_one, unit_of,
}
use signalk_doctor_server.Recovery.Verdict.{CanRecover, recover_all-ok_iff}
use signalk_doctor_server.Recovery.Files.{IsRestored, recover_all-IsRestored}

abbrev faults : Faults
faults = record {
  restore = λ q. no_fault;
  no_snapshot = λ p. "ENOENT";
  reload = none;
  restart = λ u. some "failed";
}

abbrev last_good : LastGood
last_good = record {
  updated_at = "t0";
  quadlets =
      ("signalk-server.container", record { tag = "2.9.0"; image = "i"; snapshot_path = "/s/1" })
      ∷ ("other.container", record { tag = "1.0.0"; image = "j"; snapshot_path = "/s/gone" })
      ∷ [];
}

abbrev machine : Machine
machine = record {
  quadlets = ("signalk-server.container", "broken") ∷ [];
  snapshots = ("/s/1", "Image=i:2.9.0") ∷ [];
  calls = [];
}

recover_all-ok_iff_example :
    ((recover_all faults (some last_good) machine).1.ok ≡ true)
    ↔ CanRecover faults machine (some last_good)
recover_all-ok_iff_example = recover_all-ok_iff faults (some last_good) machine

recover_all-IsRestored_example :
    IsRestored last_good.quadlets machine "signalk-server.container"
      (recover_all faults (some last_good) machine).0
recover_all-IsRestored_example =
    recover_all-IsRestored faults last_good machine "signalk-server.container"

two_errors :
    (recover_all faults (some last_good) machine).1.errors
    ≡ "other.container: ENOENT" ∷ "restart signalk-server.service: failed" ∷ []
unfolding recover_all restore_all restore_one restart_all unit_of lookup insert
two_errors = refl
