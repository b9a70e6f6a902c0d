-- ===== src/Drift/Scheduler.antt =====
-- src/drift/scheduler.ts: when scans run. A call, a timer and the end of a scan are each a step
-- on the state; `Math.floor(Math.random() * span)` is an argument below `span`. Times are in
-- milliseconds.
mod Examples
pub mod Liveness
use signalk_doctor_server.Common.{
  ℕ, zero, suc, ◌+◌, ◌-◌, ◌*◌, ◌<◌, ◌≡◌, min, Bool, true, false, Option, none, some, if◌then◌else◌,
  ◌==◌,
}

abbrev pub first_scan_delay : ℕ
first_scan_delay = 60000

abbrev pub min_interval : ℕ
min_interval = 12 * 60 * 60 * 1000

abbrev pub max_interval : ℕ
max_interval = 24 * 60 * 60 * 1000

abbrev pub backoff_initial : ℕ
backoff_initial = 15 * 60 * 1000

abbrev pub backoff_max : ℕ
backoff_max = max_interval

abbrev pub span : ℕ
span = max_interval - min_interval

-- `timer` is the delay of the timeout that is set and has not fired; `waiting` counts the timeouts
-- that fired and wait for the scan in flight; `scans` counts the scans begun.
pub record DriftScheduler : Type 0 where
  pub timer : Option ℕ
  pub stopped : Bool
  pub current_backoff : ℕ
  pub inflight : Bool
  pub waiting : ℕ
  pub scans : ℕ

abbrev pub new_scheduler : DriftScheduler
new_scheduler = record {
  timer = none;
  stopped = false;
  current_backoff = backoff_initial;
  inflight = false;
  waiting = 0;
  scans = 0;
}

abbrev pub next_healthy_delay : ℕ → ℕ
next_healthy_delay jitter = min_interval + jitter

unfoldable pub schedule_next : ℕ → DriftScheduler → DriftScheduler
schedule_next delay s = if s.stopped then s else record s { timer = some delay }

unfoldable pub start : DriftScheduler → DriftScheduler
unfolding schedule_next
start s = if s.stopped then s else schedule_next first_scan_delay s

unfoldable pub stop : DriftScheduler → DriftScheduler
stop s = record s { stopped = true; timer = none }

-- A scan in flight is joined.
unfoldable pub refresh_now : DriftScheduler → DriftScheduler
refresh_now s = if s.inflight then s else record s { inflight = true; scans = suc s.scans }

-- The timeout fires.
unfoldable pub fire : DriftScheduler → DriftScheduler
unfolding refresh_now
fire s = refresh_now (record s { timer = none; waiting = suc s.waiting })

-- How `runDriftScan` ends.
pub data Ended : Type 0 where
  online offline threw : Ended

unfoldable pub backoff_after : Ended → ℕ → ℕ
backoff_after online current = backoff_initial
backoff_after offline current = min (current * 2) backoff_max
backoff_after threw current = min (current * 2) backoff_max

unfoldable pub next_delay : ℕ → ℕ → ℕ
next_delay jitter current =
    if current == backoff_initial then next_healthy_delay jitter else current

reschedule : ℕ → ℕ → DriftScheduler → DriftScheduler
unfolding schedule_next
reschedule zero delay s = s
reschedule (suc n) delay s = schedule_next delay s

-- The scan ends, and every timeout that waited for it sets the next one.
unfoldable pub finish : Ended → ℕ → DriftScheduler → DriftScheduler
unfolding backoff_after next_delay reschedule
finish ended jitter s =
    let current = backoff_after ended s.current_backoff in
    reschedule s.waiting (next_delay jitter current)
      (record s { current_backoff = current; inflight = false; waiting = 0 })

pub data Step : DriftScheduler → DriftScheduler → Type 0 where
  starts : (s : DriftScheduler) → Step s (start s)
  stops : (s : DriftScheduler) → Step s (stop s)
  refreshes : (s : DriftScheduler) → Step s (refresh_now s)
  fires : (s : DriftScheduler) (delay : ℕ) → s.timer ≡ some delay → Step s (fire s)
  ends :
      (s : DriftScheduler) (ended : Ended) (jitter : ℕ)
      → s.inflight ≡ true
      → jitter < span
      → Step s (finish ended jitter s)

-- The states after `start()`.
pub data Reachable : DriftScheduler → Type 0 where
  started : Reachable (start new_scheduler)
  later : (s t : DriftScheduler) → Reachable s → Step s t → Reachable t
