-- ===== src/Drift/HealRoute/Examples.antt =====
-- The heal job and the handler at concrete inputs: an update that hangs, and a busy updater.
use signalk_doctor_server.Common.{◌≡◌, refl, Option, none, some, [], ◌∷◌}
use signalk_doctor_server.Mutex.{
  LockInfo, missing, torn, written, no_faults, no_interference, Caller, info_for, heal_plugin_deps,
  self_update, updater, Disk,
}
use signalk_doctor_server.Jobs.{running_job, Job}
use signalk_doctor_server.Common.Maps.{Map}
use signalk_doctor_server.Drift.Types.{DriftReport}
use signalk_doctor_server.Drift.Heal.{HealResult, run_data_dir_heal}
use signalk_doctor_server.Drift.Heal.Retention.{update_in}
use signalk_doctor_server.Drift.Heal.Examples.{report, times, no_json, short, digits, hanging}
use signalk_doctor_server.Drift.HealRoute.{settled_of, heal_job}
use signalk_doctor_server.Drift.HealRoute.Lock.{heal_job_lock}

abbrev caller : Caller
caller = record { now = "t3"; pid = 7; nonce = "n1" }

abbrev lock_free : Disk (Option DriftReport)
lock_free = record { lock_file = missing; rest = some report }

abbrev locked : Disk (Option DriftReport)
locked = record { lock_file = torn; rest = some report }

heal_job_lock_example :
    heal_job no_json short digits hanging times no_faults no_interference no_interference caller
      lock_free
    ≡ (
      record { lock_file = written (info_for caller heal_plugin_deps); rest = some report },
      settled_of (run_data_dir_heal no_json short digits hanging times (some report)).0,
    )
unfolding run_data_dir_heal update_in signalk_doctor_server.Drift.Heal.select_heal_targets
    signalk_doctor_server.Drift.Explain.explain_packages
heal_job_lock_example = heal_job_lock no_json short digits hanging times caller lock_free refl

abbrev updating : LockInfo
updating = record {
  owner = updater;
  operation = self_update;
  started_at = "t0";
  pid = none;
  nonce = none;
}

-- Another POST started a heal while this one read the lock.
abbrev one_heal : Map (Job HealResult)
one_heal = ("a", running_job "t2") ∷ []
