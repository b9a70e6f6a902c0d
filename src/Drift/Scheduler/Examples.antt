-- ===== src/Drift/Scheduler/Examples.antt =====
-- The scheduler through its first scan, which finds no network.
use signalk_doctor_server.Common.{◌*◌, ◌≡◌, refl, some}
use signalk_doctor_server.Drift.Scheduler.{
  DriftScheduler, new_scheduler, start, schedule_next, fire, refresh_now, finish, offline,
  Reachable, started, later, fires, backoff_after, next_delay,
}
use signalk_doctor_server.Drift.Scheduler.Liveness.{IsSound, scans_go_on}

abbrev scanning : DriftScheduler
scanning = fire (start new_scheduler)

reached : Reachable scanning
unfolding start schedule_next
reached = later (start new_scheduler) scanning started (fires (start new_scheduler) 60000 refl)

scans_go_on_example : IsSound scanning
scans_go_on_example = scans_go_on scanning reached

-- The first failure waits twice the initial backoff.
first_backoff : (finish offline 0 scanning).timer ≡ some (2 * (15 * 60 * 1000))
unfolding start schedule_next fire refresh_now finish backoff_after next_delay
first_backoff = refl
