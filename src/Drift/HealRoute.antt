-- ===== src/Drift/HealRoute.antt =====
-- src/routes/drift.ts, POST /api/drift/heal: the handler, and the job that it starts under the
-- operation lock. The clock and the random ids are arguments.
mod Examples
pub mod Lock
use signalk_doctor_server.Common.{ℕ, Bool, false, Option, none, some, String, ◌^^◌, if◌then◌else◌}
use signalk_doctor_server.Common.Maps.{Map}
use signalk_doctor_server.Common.Json.{Json}
use signalk_doctor_server.Mutex.{
  Operation, switch, rollback, self_update, hardware_apply, recover, restart, installer_refresh,
  heal_plugin_deps, Owner, updater, doctor, LockInfo, LockFile, Faults, Interference, Caller,
  MutexHandle, Acquisition, handle, busy, failed, acquire_mutex, release, Disk,
}
use signalk_doctor_server.Jobs.{
  Job, StartResult, find_running_job, start_job, Settled, resolved_with, thrown,
}
use signalk_doctor_server.Drift.Heal.{
  RunTimes, exec, HealResult, not_healed, HealDeps, Ran, resolved, rejected, run_data_dir_heal,
}
use signalk_doctor_server.Drift.Heal.Retention.{retains}

abbrev pub operation_name : Operation → String
operation_name switch = "switch"
operation_name rollback = "rollback"
operation_name self_update = "self-update"
operation_name hardware_apply = "hardware-apply"
operation_name recover = "recover"
operation_name restart = "restart"
operation_name installer_refresh = "installer-refresh"
operation_name heal_plugin_deps = "heal-plugin-deps"

abbrev pub owner_name : Owner → String
owner_name updater = "updater"
owner_name doctor = "doctor"

-- The result of a job that found the lock held.
abbrev pub busy_result : String → LockInfo → HealResult
busy_result now lock = not_healed (record {
  reason = exec;
  detail =
      "operation lock held by "
      ^^ owner_name lock.owner
      ^^ "/"
      ^^ operation_name lock.operation
      ^^ " since "
      ^^ lock.started_at
      ^^ " — wait for it to finish and retry";
  times = record { started_at = now; finished_at = now; duration_ms = 0 };
  exit_code = none;
  output_tail = none;
  packages = none;
  lock_retained = false;
})

abbrev pub settled_of : Ran → Settled HealResult
settled_of (resolved result) = resolved_with result
settled_of (rejected error) = thrown error

-- The `finally` of the job.
let_go : Faults → Bool → MutexHandle → LockFile → LockFile
let_go faults retain h file =
    let released = (release faults (λ f. f) h file).1 in if retain then file else released

module _ (json_parse : String → Option Json) (first_200 : String → String) (decimal : ℕ → String)
    {W : Type 0} (deps : HealDeps W) (times : RunTimes) where
  -- The heal runs with the lock held; `meanwhile` is what others do to the lock file during it.
  run_locked : Faults → Interference → MutexHandle → Disk W → Disk W × Settled HealResult
  unfolding let_go
  run_locked faults meanwhile h d =
      let (ran, w) = run_data_dir_heal json_parse first_200 decimal deps times d.rest in
      (
        record { lock_file = let_go faults (retains ran) h (meanwhile d.lock_file); rest = w },
        settled_of ran,
      )

  after_acquire :
      Faults → Interference → String → Acquisition → Disk W → Disk W × Settled HealResult
  unfolding run_locked
  after_acquire faults meanwhile now (handle h) d = run_locked faults meanwhile h d
  after_acquire faults meanwhile now (busy lock) d = (d, resolved_with (busy_result now lock))
  after_acquire faults meanwhile now (failed error) d = (d, thrown error)

  unfoldable pub heal_job :
      Faults → Interference → Interference → Caller → Disk W → Disk W × Settled HealResult
  unfolding after_acquire
  heal_job faults others meanwhile c d =
      let (file, acquisition) = acquire_mutex faults others c heal_plugin_deps d.lock_file in
      after_acquire faults meanwhile c.now acquisition (record d { lock_file = file })

-- 202 with a job, or 409 with the lock.
pub data Reply : Type 0 where
  accepted : StartResult → Reply
  conflict : LockInfo → Reply

started : Map (Job HealResult) × StartResult → Reply × Map (Job HealResult)
started (jobs, result) = (accepted result, jobs)

recheck : LockInfo → Map (Job HealResult) → Option StartResult → Reply × Map (Job HealResult)
recheck lock jobs none = (conflict lock, jobs)
recheck lock jobs (some running) = (accepted running, jobs)

checked : Option LockInfo → Map (Job HealResult) → String → String → Reply × Map (Job HealResult)
unfolding started recheck
checked none jobs id now = started (start_job jobs id now)
checked (some lock) jobs id now = recheck lock jobs (find_running_job jobs)

reused :
    Option StartResult
    → Map (Job HealResult)
    → Option LockInfo
    → Map (Job HealResult)
    → String
    → String
    → Reply × Map (Job HealResult)
unfolding checked
reused (some running) jobs seen later id now = (accepted running, jobs)
reused none jobs seen later id now = checked seen later id now

-- The handler. Other handlers run while it waits for `readLock`, which gives `seen`: the registry
-- is `jobs` before and `later` after.
unfoldable pub post_heal :
    Map (Job HealResult)
    → Option LockInfo
    → Map (Job HealResult)
    → String
    → String
    → Reply × Map (Job HealResult)
unfolding reused
post_heal jobs seen later id now = reused (find_running_job jobs) jobs seen later id now
