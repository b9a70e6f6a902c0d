-- ===== src/Installer/Examples.antt =====
-- A refresh at a concrete machine: two scripts are there, one of them current.
use signalk_doctor_server.Common.{◌≡◌, refl, true, none, some, [], ◌∷◌}
use signalk_doctor_server.Common.Maps.{lookup, insert}
use signalk_doctor_server.Installer.Artifacts.{artifacts}
use signalk_doctor_server.Installer.{
  Machine, answer, got, copies, writes, Env, fetch_artifact, snapshot_name, refresh_one,
  refresh_installer,
}
use signalk_doctor_server.Installer.Refresh.{Reported, refresh_installer-Reported}

abbrev env : Env
env = record {
  settings = record { doctor_data_var = none; host_bin_dir_var = none; pages_base_var = some "p" };
  http = λ url. answer 200 (got url);
  hash = λ body. body;
  decimal = λ n. "";
  stamp = λ path. "t";
  read_fault = λ path. none;
  copy_fault = λ path. copies;
  write_fault = λ path. writes;
}

abbrev machine : Machine
machine = record {
  host_bin = true;
  files =
      ("/host-bin/signalk", record { body = "old"; mode = 0o755 })
      ∷ (
        "/host-bin/signalk-kiosk",
        record { body = "p/installer/linux/signalk-kiosk.tmpl"; mode = 0o755 },
      )
      ∷ [];
  snapshots = [];
  temps = [];
}

refresh_installer-Reported_example : Reported env machine (refresh_installer env "t0" "t1" machine)
unfolding artifacts snapshot_name
refresh_installer-Reported_example = refresh_installer-Reported env "t0" "t1" machine refl refl

-- Eleven are updated, the kiosk script is left alone, and only the old script is kept.
old_script_kept :
    (refresh_installer env "t0" "t1" machine).0.snapshots
    ≡ ("/data/installer-snapshots/t-signalk", record { body = "old"; mode = 0o755 }) ∷ []
unfolding refresh_installer artifacts snapshot_name refresh_one fetch_artifact lookup insert
old_script_kept = refl
