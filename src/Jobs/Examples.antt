-- ===== src/Jobs/Examples.antt =====
-- The registry at concrete runs; a result is a number that is fine where it is 0.
use signalk_doctor_server.Common.{ℕ, ◌≤◌, ◌≡◌, refl, Bool, some, [], ◌∷◌, String, ◌==◌, length, All}
use signalk_doctor_server.Common.Maps.{lookup, insert}
use signalk_doctor_server.Jobs.{
  running_job, max_jobs, start_job, find_running_job, find_running_job_id, prune_jobs,
}
use signalk_doctor_server.Jobs.AtMostOne.{Registry, post, Reachable, initial, after, at_most_one}

abbrev is_zero : ℕ → Bool
is_zero n = n == 0

abbrev one : String → ℕ
one e = 1

abbrev empty_registry : Registry ℕ
empty_registry = record { jobs = []; in_flight = [] }

abbrev one_running : Registry ℕ
one_running = record { jobs = ("a", running_job "t0") ∷ []; in_flight = "a" ∷ [] }

reached : Reachable is_zero one one_running
unfolding start_job find_running_job find_running_job_id prune_jobs insert lookup
reached = after empty_registry one_running initial (post empty_registry "a" "t0" refl)

at_most_one_example :
    (length one_running.in_flight ≤ 1)
    × (length one_running.jobs ≤ max_jobs)
    × All
        (λ id. (t : String) × (lookup id one_running.jobs ≡ some (running_job t)))
        one_running.in_flight
at_most_one_example = at_most_one is_zero one one_running reached
