-- ===== src/Drift/Heal/Examples.antt =====
-- The heal at a concrete report: one plugin-tree copy is a minor version behind.
use signalk_doctor_server.Common.{ℕ, ◌≡◌, true, Option, none, some, [], ◌∷◌, String}
use signalk_doctor_server.Common.Json.{Json}
use signalk_doctor_server.Podman.Exec.{ExecResult, success, failure, timeout}
use signalk_doctor_server.Drift.Types.{DriftLocation, DriftPackage, DriftReport, minor}
use signalk_doctor_server.Drift.Heal.{
  HealTarget, RunTimes, HealDeps, run_data_dir_heal, select_heal_targets, run_update, select_from,
}
use signalk_doctor_server.Drift.Heal.Retention.{
  retains, retains-run_data_dir_heal, update_in, update_of, update_result,
}

abbrev pub copy : DriftLocation
copy = record { installed = "1.2.0"; classification = minor }

abbrev pub behind_package : DriftPackage
behind_package = record {
  name = "charts";
  image = none;
  data_dir = some copy;
  latest = some "1.3.0";
  etag = none;
  last_fetched_at = none;
}

abbrev pub report : DriftReport
report = record {
  signalk_image_tag = none;
  last_scanned_at = "t0";
  last_successful_scan_at = none;
  online = true;
  last_fetch_error = none;
  packages = behind_package ∷ [];
}

abbrev target : HealTarget
target = record { name = "charts"; from = "1.2.0"; latest = some "1.3.0" }

abbrev pub times : RunTimes
times = record { started_at = "t1"; finished_at = "t2"; duration_ms = 5 }

abbrev pub no_json : String → Option Json
no_json s = none

abbrev pub short : String → String
short s = s

abbrev pub digits : ℕ → String
digits n = ""

abbrev pub hung : ExecResult
hung = failure (record { reason = timeout; detail = "hung"; still_running = true; error = none })

abbrev exited : ExecResult
exited = success (record { exit_code = 0; output = ""; stderr = none })

-- A world is the report on disk. The update hangs, and the rescan works.
abbrev pub hanging : HealDeps (Option DriftReport)
hanging = record {
  load_report = λ w. (w, w);
  exec = λ command separate w. (hung, w);
  rescan = λ w. (none, w);
}

-- npm ends, and the rescan throws.
abbrev throwing : HealDeps (Option DriftReport)
throwing = record {
  load_report = λ w. (w, w);
  exec = λ command separate w. (exited, w);
  rescan = λ w. (some "offline", w);
}

retains-run_data_dir_heal_example :
    retains (run_data_dir_heal no_json short digits hanging times (some report)).0 ≡ true
unfolding update_in update_of update_result run_update select_heal_targets select_from
retains-run_data_dir_heal_example =
    retains-run_data_dir_heal no_json short digits hanging times (some report)
