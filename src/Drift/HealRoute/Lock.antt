-- ===== src/Drift/HealRoute/Lock.antt =====
-- The heal and the operation lock.
use signalk_doctor_server.Common.{
  ℕ, ◌≡◌, refl, ap, ◌∙◌, ◌≢◌, ◌↔◌, Bool, true, false, Option, none, some, String, arith, eq_refl,
  if◌then◌else◌,
}
use signalk_doctor_server.Common.Maps.{Map}
use signalk_doctor_server.Common.Json.{Json}
use signalk_doctor_server.Mutex.{
  heal_plugin_deps, LockInfo, LockFile, missing, torn, written, no_faults, no_interference, Caller,
  info_for, assumed_holder, MutexHandle, acquire_mutex, release, Disk,
}
use signalk_doctor_server.Jobs.{Job, StartResult, find_running_job, resolved_with}
use signalk_doctor_server.Drift.Heal.{RunTimes, HealResult, HealDeps, run_data_dir_heal}
use signalk_doctor_server.Drift.Heal.Retention.{
  retains, may_run, says, update_in, retains-run_data_dir_heal,
}
use signalk_doctor_server.Drift.HealRoute.{
  busy_result, settled_of, let_go, run_locked, after_acquire, heal_job, conflict, started, recheck,
  checked, reused, post_heal,
}

release_own :
    (h : MutexHandle) (n : String)
    → h.released ≡ false
    → h.info.nonce ≡ some n
    → (release no_faults no_interference h (written h.info)).1 ≡ missing
unfolding release
release_own h n fresh named = ground (arith, eq_refl n)

module _ (json_parse : String → Option Json) (first_200 : String → String) (decimal : ℕ → String)
    {W : Type 0} (deps : HealDeps W) (times : RunTimes) where
  let_go_own :
      (retain : Bool) (c : Caller)
      → let_go no_faults retain
          (record { info = info_for c heal_plugin_deps; released = false })
          (written (info_for c heal_plugin_deps))
        ≡ (if retain then written (info_for c heal_plugin_deps) else missing)
  unfolding let_go
  let_go_own true c = refl
  let_go_own false c =
      release_own (record { info = info_for c heal_plugin_deps; released = false }) c.nonce refl
        refl

  -- Where no lock file is there, the job runs the heal under its own lock; afterwards the lock is
  -- still there if npm may still run, and is gone otherwise, also where the heal throws. No call
  -- to the file system fails, and nobody else touches the lock.
  pub heal_job_lock :
      (c : Caller) (d : Disk W)
      → d.lock_file ≡ missing
      → let ran = run_data_dir_heal json_parse first_200 decimal deps times d.rest in
        heal_job json_parse first_200 decimal deps times no_faults no_interference no_interference c
          d
        ≡ (
          record {
            lock_file =
                if says may_run (update_in json_parse first_200 decimal deps times d.rest)
                then written (info_for c heal_plugin_deps)
                else missing;
            rest = ran.1;
          },
          settled_of ran.0,
        )
  unfolding heal_job after_acquire run_locked acquire_mutex
  heal_job_lock c d none_there = job_at d.lock_file d.rest none_there
    where
      mine : LockFile
      mine = written (info_for c heal_plugin_deps)

      job_at :
          (file : LockFile) (r : W)
          → file ≡ missing
          → let ran = run_data_dir_heal json_parse first_200 decimal deps times r in
            heal_job json_parse first_200 decimal deps times no_faults no_interference
              no_interference c
              (record { lock_file = file; rest = r })
            ≡ (
              record {
                lock_file =
                    if says may_run (update_in json_parse first_200 decimal deps times r)
                    then mine
                    else missing;
                rest = ran.1;
              },
              settled_of ran.0,
            )
      job_at torn r e = cc
      job_at (written l) r e = cc
      job_at missing r e =
          let ran = run_data_dir_heal json_parse first_200 decimal deps times r in
          ap (λ f. (record { lock_file = f; rest = ran.1 }, settled_of ran.0))
            (let_go_own (retains ran.0) c
              ∙ ap (λ b. if b then mine else missing)
                  (retains-run_data_dir_heal json_parse first_200 decimal deps times r))

  -- Where a lock file is there, no heal runs: the disk stays as it was, and the job ends with the
  -- result that names a holder.
  pub heal_job_busy :
      (c : Caller) (d : Disk W)
      → d.lock_file ≢ missing
      → (lock : LockInfo) × (heal_job json_parse first_200 decimal deps times no_faults
            no_interference no_interference c d
          ≡ (d, resolved_with (busy_result c.now lock)))
  unfolding heal_job after_acquire acquire_mutex
  heal_job_busy c d there = busy_at d.lock_file d.rest there
    where
      busy_at :
          (file : LockFile) (r : W)
          → file ≢ missing
          → (lock : LockInfo) × (heal_job json_parse first_200 decimal deps times no_faults
                no_interference no_interference c
                (record { lock_file = file; rest = r })
              ≡ (record { lock_file = file; rest = r }, resolved_with (busy_result c.now lock)))
      busy_at missing r h = absurd (h refl)
      busy_at torn r h = (assumed_holder c, refl)
      busy_at (written l) r h = (l, refl)

-- A POST is refused exactly if no heal ran before or after the lock was read, and the lock was
-- held: a heal never bounces off its own lock.
pub post_heal-conflict_iff :
    (jobs later : Map (Job HealResult)) (seen : Option LockInfo) (lock : LockInfo) (id now : String)
    → ((post_heal jobs seen later id now).0 ≡ conflict lock)
      ↔ ((find_running_job jobs ≡ none) × (seen ≡ some lock) × (find_running_job later ≡ none))
unfolding post_heal reused checked started recheck
post_heal-conflict_iff jobs later seen lock id now = refused (find_running_job jobs) seen
  where
    by_second :
        (l : LockInfo) (q : Option StartResult)
        → ((recheck l later q).0 ≡ conflict lock) ↔ ((l ≡ lock) × (q ≡ none))
    by_second l none = (λ e. (ground arith, refl), λ h. ap conflict h.0)
    by_second l (some r) = (λ e. cc, λ h. cc)

    refused :
        (p : Option StartResult) (s : Option LockInfo)
        → ((reused p jobs s later id now).0 ≡ conflict lock)
          ↔ ((p ≡ none) × (s ≡ some lock) × (find_running_job later ≡ none))
    refused (some r) s = (λ e. cc, λ h. let (a, b, c) = h in cc)
    refused none none = (λ e. cc, λ h. let (a, b, c) = h in cc)
    refused none (some l) = (
      λ e.
          let (same, idle) = (by_second l (find_running_job later)).0 e in
          (refl, ap some same, idle),
      λ h. let (a, same, idle) = h in (by_second l (find_running_job later)).1 (ground arith, idle),
    )
