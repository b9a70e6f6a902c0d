-- ===== src/Jobs.antt =====
-- src/drift/heal-jobs.ts and src/bug-report-jobs.ts: the registry of background jobs. Both files
-- have the same registry over their own result; here the result is a parameter. `jobs` is a
-- JavaScript `Map` from ids to jobs; ids are random UUIDs, so they are not empty, and the clock
-- is an argument.
mod Examples
pub mod Shape
pub mod AtMostOne
use signalk_doctor_server.Common.{
  ℕ, Bool, true, false, Option, none, some, [], ◌∷◌, String, if◌then◌else◌, ltb, length,
}
use signalk_doctor_server.Common.Maps.{Map, lookup, insert}

pub data Job (R : Type 0) : Type 0 where
  running_job : (started_at : String) → Job R
  finished_job : (done : Bool) (started_at finished_at : String) (result : R) → Job R

-- How a run settles: it resolves, or it throws.
pub data Settled (R : Type 0) : Type 0 where
  resolved_with : R → Settled R
  thrown : String → Settled R

pub record StartResult : Type 0 where
  pub job_id : String
  pub started_at : String
  pub reused : Bool

abbrev pub max_jobs : ℕ
max_jobs = 8

module _ {R : Type 0} where
  abbrev pub is_running : Job R → Bool
  is_running (running_job t) = true
  is_running (finished_job done t u r) = false

  abbrev pub started : Job R → String
  started (running_job t) = t
  started (finished_job done t u r) = t

  -- The oldest entries go while there are more than MAX_JOBS.
  unfoldable pub prune_jobs : Map (Job R) → Map (Job R)
  prune_jobs [] = []
  prune_jobs (oldest ∷ rest) =
      let pruned = prune_jobs rest in
      if ltb max_jobs (length (oldest ∷ rest)) then pruned else oldest ∷ rest

  unfoldable pub find_running_job_id : Map (Job R) → Option String
  find_running_job_id [] = none
  find_running_job_id ((id, job) ∷ rest) =
      let later = find_running_job_id rest in if is_running job then some id else later

  while_running : String → Option (Job R) → Option StartResult
  while_running id none = none
  while_running id (some (running_job t)) =
      some (record { job_id = id; started_at = t; reused = true })
  while_running id (some (finished_job done t u r)) = none

  reuse : Map (Job R) → Option String → Option StartResult
  unfolding while_running
  reuse jobs none = none
  reuse jobs (some id) = while_running id (lookup id jobs)

  -- `findRunningHealJob()`
  unfoldable pub find_running_job : Map (Job R) → Option StartResult
  unfolding reuse
  find_running_job jobs = reuse jobs (find_running_job_id jobs)

  unfoldable pub launch :
      Map (Job R) → String → String → Option StartResult → Map (Job R) × StartResult
  launch jobs id now (some running) = (jobs, running)
  launch jobs id now none = (
    prune_jobs (insert id (running_job now) jobs),
    record { job_id = id; started_at = now; reused = false },
  )

  -- `id` and `now` are what randomUUID and the clock give; the run is launched where the result
  -- says that no job was reused.
  unfoldable pub start_job : Map (Job R) → String → String → Map (Job R) × StartResult
  unfolding launch
  start_job jobs id now = launch jobs id now (find_running_job jobs)

  unfoldable pub store_result :
      (R → Bool) → Map (Job R) → String → R → String → Option (Job R) → Map (Job R)
  store_result is_ok jobs id result now none = jobs
  store_result is_ok jobs id result now (some existing) =
      insert id (finished_job (is_ok result) (started existing) now result) jobs

  unfoldable pub finalize : (R → Bool) → Map (Job R) → String → R → String → Map (Job R)
  unfolding store_result
  finalize is_ok jobs id result now = store_result is_ok jobs id result now (lookup id jobs)

  -- An error becomes a result, so no job stays running.
  unfoldable pub settle :
      (R → Bool) → (String → R) → Map (Job R) → String → Settled R → String → Map (Job R)
  unfolding finalize
  settle is_ok of_error jobs id (resolved_with result) now = finalize is_ok jobs id result now
  settle is_ok of_error jobs id (thrown message) now = finalize is_ok jobs id (of_error message) now
