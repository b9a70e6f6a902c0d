-- ===== src/Jobs/AtMostOne.antt =====
-- The registry together with the runs in flight: never two at once, and the one that runs is
-- never pruned.
use signalk_doctor_server.Common.{
  ◌≤◌, ◌≡◌, refl, subst, inl, inr, Bool, true, none, some, List, [], ◌∷◌, ◌++◌, String, str_eq,
  eq_iff, arith, if◌then◌else◌, length, filter, not, In, All,
}
use signalk_doctor_server.Common.Maps.{
  Map, lookup, insert, lookup-insert_self, length-insert_present,
}
use signalk_doctor_server.Jobs.{
  Job, running_job, finished_job, max_jobs, reuse, find_running_job, start_job, store_result,
  finalize, Settled, resolved_with, thrown, settle,
}
use signalk_doctor_server.Jobs.Shape.{
  Shape, no_jobs, IsTracked, Shape-IsTracked, find_running_job_id-Shape, insert-Shape, prune-Shape,
  length-prune_jobs, IsTracked-In, insert_finished-Shape, start_job-idle, start_job-busy,
}

-- The registry, and the ids of the runs that were launched and have not settled.
pub record Registry (R : Type 0) : Type 0 where
  pub jobs : Map (Job R)
  pub in_flight : List String

module _ {R : Type 0} (is_ok : R → Bool) (of_error : String → R) where
  -- A POST: a fresh id is drawn, and the run is launched unless a job was reused.
  abbrev pub posted : String → String → Registry R → Registry R
  posted id now s =
      let (jobs, result) = start_job s.jobs id now in
      record {
        jobs = jobs;
        in_flight = if result.reused then s.in_flight else s.in_flight ++ id ∷ [];
      }

  abbrev pub settled : String → Settled R → String → Registry R → Registry R
  settled id x now s = record {
    jobs = settle is_ok of_error s.jobs id x now;
    in_flight = filter (λ j. not (str_eq j id)) s.in_flight;
  }

  pub data Step : Registry R → Registry R → Type 0 where
    post : (s : Registry R) (id now : String) → lookup id s.jobs ≡ none → Step s (posted id now s)
    settles :
        (s : Registry R) (id : String) (x : Settled R) (now : String)
        → In id s.in_flight
        → Step s (settled id x now s)

  pub data Reachable : Registry R → Type 0 where
    initial : Reachable (record { jobs = []; in_flight = [] })
    after : (s t : Registry R) → Reachable s → Step s t → Reachable t

  abbrev pub Sound : Registry R → Type 0
  Sound s = Shape s.jobs s.in_flight × (length s.jobs ≤ max_jobs)

  -- What the run hands to the registry.
  abbrev pub outcome_of : Settled R → R
  outcome_of (resolved_with r) = r
  outcome_of (thrown e) = of_error e

  launch-Sound :
      (id now : String) (jobs : Map (Job R)) (ids : List String)
      → lookup id jobs ≡ none
      → Sound (record { jobs = jobs; in_flight = ids })
      → Sound (posted id now (record { jobs = jobs; in_flight = ids }))
  launch-Sound id now jobs [] fresh (shape, size) = rw (start_job-idle id now jobs shape) (
    prune-Shape (insert id (running_job now) jobs) (id ∷ [])
        (insert-Shape id now jobs [] shape refl fresh),
    length-prune_jobs (insert id (running_job now) jobs),
  )
  launch-Sound id now jobs (other ∷ ids) fresh (shape, size) =
      let (t, there, same) = start_job-busy id now other jobs ids shape in rw same (shape, size)

  finalize-Sound :
      (id : String) (r : R) (now : String) (jobs : Map (Job R)) (ids : List String)
      → In id ids
      → Sound (record { jobs = jobs; in_flight = ids })
      → Shape (finalize is_ok jobs id r now) [] × (length (finalize is_ok jobs id r now) ≤ max_jobs)
  unfolding finalize store_result
  finalize-Sound id r now jobs ids m (shape, size) =
      let (t, there) = IsTracked-In id jobs ids (Shape-IsTracked jobs ids shape) m in
      let grown =
        length-insert_present id (finished_job (is_ok r) t now r) (running_job t) jobs there in
      rw there (insert_finished-Shape id (is_ok r) t now r jobs ids shape m, omega (arith, grown))

  settle-Sound :
      (id : String) (x : Settled R) (now : String) (s : Registry R)
      → In id s.in_flight
      → Sound s
      → Shape (settle is_ok of_error s.jobs id x now) []
        × (length (settle is_ok of_error s.jobs id x now) ≤ max_jobs)
  unfolding settle
  settle-Sound id (resolved_with r) now s = finalize-Sound id r now s.jobs s.in_flight
  settle-Sound id (thrown e) now s = finalize-Sound id (of_error e) now s.jobs s.in_flight

  none_left :
      (id : String) (jobs : Map (Job R)) (ids : List String)
      → IsTracked jobs ids
      → In id ids
      → filter (λ j. not (str_eq j id)) ids ≡ []
  none_left id jobs [] h m = elim m [ ]
  none_left id jobs (other ∷ ids) (single, t, there) (inl e) =
      rw single (ground (eq_iff other id, arith))
  none_left id jobs (other ∷ ids) (single, t, there) (inr m) = elim (subst (In id) single m) [ ]

  step-Sound : (s t : Registry R) → Step s t → Sound s → Sound t
  step-Sound _ _ (post s id now fresh) h = launch-Sound id now s.jobs s.in_flight fresh h
  step-Sound _ _ (settles s id x now m) h =
      rw (none_left id s.jobs s.in_flight (Shape-IsTracked s.jobs s.in_flight h.0) m)
        (settle-Sound id x now s m h)

  pub Reachable-Sound : (s : Registry R) → Reachable s → Sound s
  Reachable-Sound _ initial = (no_jobs, omega arith)
  Reachable-Sound _ (after before s r step) = step-Sound before s step (Reachable-Sound before r)

  -- Whatever the order of posts and endings, at most one run is in flight, its job is in the
  -- registry as running, and the registry holds no more than eight jobs.
  pub at_most_one :
      (s : Registry R)
      → Reachable s
      → (length s.in_flight ≤ 1)
        × (length s.jobs ≤ max_jobs)
        × All (λ id. (t : String) × (lookup id s.jobs ≡ some (running_job t))) s.in_flight
  at_most_one s r =
      let (shape, size) = Reachable-Sound s r in
      let (few, known) = tracked s.jobs s.in_flight (Shape-IsTracked s.jobs s.in_flight shape) in
      (few, size, known)
    where
      tracked :
          (jobs : Map (Job R)) (ids : List String)
          → IsTracked jobs ids
          → (length ids ≤ 1)
            × All (λ id. (t : String) × (lookup id jobs ≡ some (running_job t))) ids
      tracked jobs [] h = (omega arith, tt)
      tracked jobs (id ∷ ids) (single, t, found) = rw single (omega arith, ((t, found), tt))

  -- While a run is in flight, a POST starts nothing: it leaves the registry alone and answers
  -- with the job that runs.
  pub start_job_reuses :
      (s : Registry R) (id new now : String)
      → Reachable s
      → In id s.in_flight
      → (t : String) × (lookup id s.jobs ≡ some (running_job t))
        × (start_job s.jobs new now
            ≡ (s.jobs, record { job_id = id; started_at = t; reused = true }))
  start_job_reuses s id new now r m = by_first s.jobs s.in_flight (Reachable-Sound s r).0 m
    where
      by_first :
          (jobs : Map (Job R)) (ids : List String)
          → Shape jobs ids
          → In id ids
          → (t : String) × (lookup id jobs ≡ some (running_job t))
            × (start_job jobs new now
                ≡ (jobs, record { job_id = id; started_at = t; reused = true }))
      by_first jobs [] shape m = elim m [ ]
      by_first jobs (first ∷ ids) shape (inl e) = rw e (start_job-busy new now first jobs ids shape)
      by_first jobs (first ∷ ids) shape (inr m) =
          elim (subst (In id) (Shape-IsTracked jobs (first ∷ ids) shape).0 m) [ ]

  -- When the run in flight ends, however it ends, its outcome is what a poll of the job finds, and
  -- no job is running any more.
  pub settle_recorded :
      (s : Registry R) (id : String) (x : Settled R) (now : String)
      → Reachable s
      → In id s.in_flight
      → (find_running_job (settle is_ok of_error s.jobs id x now) ≡ none)
        × (t : String) × (lookup id (settle is_ok of_error s.jobs id x now)
            ≡ some (finished_job (is_ok (outcome_of x)) t now (outcome_of x)))
  unfolding find_running_job reuse settle finalize store_result
  settle_recorded s id x now r m =
      let (shape, size) = Reachable-Sound s r in
      let jobs = settle is_ok of_error s.jobs id x now in
      let (t, there) =
        IsTracked-In id s.jobs s.in_flight (Shape-IsTracked s.jobs s.in_flight shape) m in
      (
        rw (find_running_job_id-Shape jobs [] (settle-Sound id x now s m (shape, size)).0) refl,
        t,
        found t x there,
      )
    where
      stored :
          (t : String) (y : R)
          → lookup id s.jobs ≡ some (running_job t)
          → lookup id (finalize is_ok s.jobs id y now) ≡ some (finished_job (is_ok y) t now y)
      stored t y there = rw there (lookup-insert_self id (finished_job (is_ok y) t now y) s.jobs)

      found :
          (t : String) (y : Settled R)
          → lookup id s.jobs ≡ some (running_job t)
          → lookup id (settle is_ok of_error s.jobs id y now)
            ≡ some (finished_job (is_ok (outcome_of y)) t now (outcome_of y))
      found t (resolved_with y) there = stored t y there
      found t (thrown e) there = stored t (of_error e) there
