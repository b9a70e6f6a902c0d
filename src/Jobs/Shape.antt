-- ===== src/Jobs/Shape.antt =====
-- The form that every registry has: finished jobs, and at most a running one at the end.
use signalk_doctor_server.Common.{
  suc, ◌≤◌, ◌≡◌, refl, ap, ◌∙◌, subst, inl, inr, Bool, true, false, Option, none, some, List, [],
  ◌∷◌, String, str_eq, eq_iff, arith, if◌then◌else◌, ltb, length, In,
}
use signalk_doctor_server.Common.Maps.{Map, lookup, insert, lookup-insert}
use signalk_doctor_server.Jobs.{
  Job, running_job, finished_job, max_jobs, prune_jobs, find_running_job_id, while_running, reuse,
  find_running_job, launch, start_job,
}

abbrev head : List String → Option String
head [] = none
head (id ∷ ids) = some id

module _ {R : Type 0} where
  -- The registry and the ids of the runs in flight: at most the newest entry runs.
  pub data Shape : Map (Job R) → List String → Type 0 where
    no_jobs : Shape [] []
    newest : (id t : String) → Shape ((id, running_job t) ∷ []) (id ∷ [])
    older :
        (id t u : String) (done : Bool) (r : R) (jobs : Map (Job R)) (ids : List String)
        → lookup id jobs ≡ none
        → Shape jobs ids
        → Shape ((id, finished_job done t u r) ∷ jobs) ids

  abbrev pub IsTracked : Map (Job R) → List String → Type 0
  IsTracked jobs [] = Unit
  IsTracked jobs (id ∷ ids) = (ids ≡ []) × (t : String) × (lookup id jobs ≡ some (running_job t))

  IsTracked-older :
      (key : String) (job : Job R) (jobs : Map (Job R)) (ids : List String)
      → lookup key jobs ≡ none
      → IsTracked jobs ids
      → IsTracked ((key, job) ∷ jobs) ids
  unfolding lookup
  IsTracked-older key job jobs [] fresh h = tt
  IsTracked-older key job jobs (id ∷ ids) fresh (single, t, there) =
      (single, t, ground (eq_iff key id, arith))

  pub Shape-IsTracked :
      (jobs : Map (Job R)) (ids : List String) → Shape jobs ids → IsTracked jobs ids
  unfolding lookup
  Shape-IsTracked jobs ids no_jobs = tt
  Shape-IsTracked jobs ids (newest id t) = (refl, t, ground (eq_iff id id, arith))
  Shape-IsTracked jobs ids (older id t u done r rest others fresh s) =
      IsTracked-older id (finished_job done t u r) rest others fresh (Shape-IsTracked rest others s)

  pub find_running_job_id-Shape :
      (jobs : Map (Job R)) (ids : List String)
      → Shape jobs ids
      → find_running_job_id jobs ≡ head ids
  unfolding find_running_job_id
  find_running_job_id-Shape jobs ids no_jobs = refl
  find_running_job_id-Shape jobs ids (newest id t) = refl
  find_running_job_id-Shape jobs ids (older id t u done r rest others fresh s) =
      find_running_job_id-Shape rest others s

  pub insert-Shape :
      (id now : String) (jobs : Map (Job R)) (ids : List String)
      → Shape jobs ids
      → ids ≡ []
      → lookup id jobs ≡ none
      → Shape (insert id (running_job now) jobs) (id ∷ [])
  unfolding insert lookup
  insert-Shape id now jobs ids no_jobs e fresh = newest id now
  insert-Shape id now jobs ids (newest other t) e fresh = cc
  insert-Shape id now jobs ids (older key t u done r rest others absent s) e fresh =
      let differ : str_eq key id ≡ false = ground arith in
      rw differ (
        older key t u done r (insert id (running_job now) rest) (id ∷ [])
          (ground
            (lookup-insert id key (running_job now) rest, eq_iff id key, eq_iff key id, arith))
          (insert-Shape id now rest others s e (ground arith)))

  pub prune-Shape :
      (jobs : Map (Job R)) (ids : List String) → Shape jobs ids → Shape (prune_jobs jobs) ids
  unfolding prune_jobs
  prune-Shape jobs ids no_jobs = no_jobs
  prune-Shape jobs ids (newest id t) = newest id t
  prune-Shape jobs ids (older id t u done r rest others fresh s) =
      keep (ltb max_jobs (suc (length rest))) (prune-Shape rest others s)
    where
      keep :
          (b : Bool)
          → Shape (prune_jobs rest) others
          → Shape (if b then prune_jobs rest else (id, finished_job done t u r) ∷ rest) others
      keep true pruned = pruned
      keep false pruned = older id t u done r rest others fresh s

  pub length-prune_jobs : (jobs : Map (Job R)) → length (prune_jobs jobs) ≤ max_jobs
  unfolding prune_jobs
  length-prune_jobs [] = omega arith
  length-prune_jobs (job ∷ rest) = ground (length-prune_jobs rest, arith)

  pub IsTracked-In :
      (id : String) (jobs : Map (Job R)) (ids : List String)
      → IsTracked jobs ids
      → In id ids
      → (t : String) × (lookup id jobs ≡ some (running_job t))
  IsTracked-In id jobs [] h m = elim m [ ]
  IsTracked-In id jobs (other ∷ ids) (single, t, there) (inl e) =
      (t, ap (λ i. lookup i jobs) e ∙ there)
  IsTracked-In id jobs (other ∷ ids) (single, t, there) (inr m) = elim (subst (In id) single m) [ ]

  pub insert_finished-Shape :
      (id : String) (done : Bool) (t u : String) (r : R) (jobs : Map (Job R)) (ids : List String)
      → Shape jobs ids
      → In id ids
      → Shape (insert id (finished_job done t u r) jobs) []
  unfolding insert lookup
  insert_finished-Shape id done t u r jobs ids no_jobs m = elim m [ ]
  insert_finished-Shape id done t u r jobs ids (newest other v) (inl e) =
      let same : str_eq other id ≡ true = ground (eq_iff other id, arith) in
      rw same (older other t u done r [] [] refl no_jobs)
  insert_finished-Shape id done t u r jobs ids (newest other v) (inr m) = elim m [ ]
  insert_finished-Shape id done t u r jobs ids (older key v w ok x rest others absent s) m =
      let (since, there) = IsTracked-In id rest others (Shape-IsTracked rest others s) m in
      let differ : str_eq key id ≡ false =
        ground (absent, there, eq_iff key id, ap (λ i. lookup i rest), arith) in
      rw differ (
        older key v w ok x (insert id (finished_job done t u r) rest) []
          (ground (
            lookup-insert id key (finished_job done t u r) rest,
            eq_iff id key,
            eq_iff key id,
            arith,
          ))
          (insert_finished-Shape id done t u r rest others s m))

  pub start_job-idle :
      (id now : String) (jobs : Map (Job R))
      → Shape jobs []
      → start_job jobs id now ≡ (
        prune_jobs (insert id (running_job now) jobs),
        record { job_id = id; started_at = now; reused = false },
      )
  unfolding start_job find_running_job launch reuse
  start_job-idle id now jobs shape = rw (find_running_job_id-Shape jobs [] shape) refl

  pub start_job-busy :
      (new now id : String) (jobs : Map (Job R)) (ids : List String)
      → Shape jobs (id ∷ ids)
      → (t : String) × (lookup id jobs ≡ some (running_job t))
        × (start_job jobs new now ≡ (jobs, record { job_id = id; started_at = t; reused = true }))
  unfolding start_job find_running_job launch reuse while_running
  start_job-busy new now id jobs ids shape =
      let (single, t, there) = Shape-IsTracked jobs (id ∷ ids) shape in
      (t, there, rw (find_running_job_id-Shape jobs (id ∷ ids) shape) (rw there refl))
