-- ===== src/Drift/Scheduler/Liveness.antt =====
-- The scans go on: between them there is always a timeout or a scan that will set one.
use signalk_doctor_server.Common.{
  ℕ, zero, suc, ◌<◌, ◌≤◌, ◌≡◌, refl, ◌⊎◌, inl, inr, Bool, true, false, Option, none, some, arith,
  if◌then◌else◌, is_some,
}
use signalk_doctor_server.Drift.Scheduler.{
  first_scan_delay, max_interval, backoff_initial, backoff_max, span, DriftScheduler, schedule_next,
  start, stop, refresh_now, fire, Ended, online, offline, threw, backoff_after, next_delay,
  reschedule, finish, Step, starts, stops, refreshes, fires, ends, Reachable, started, later,
}

-- A delay that the code may set: the one before the first scan, or one between 15 minutes and a day.
abbrev pub IsDelay : Option ℕ → Type 0
IsDelay none = Unit
IsDelay (some delay) =
    (delay ≡ first_scan_delay) ⊎ ((backoff_initial ≤ delay) × (delay ≤ max_interval))

-- Stopped with no timeout, or with a timeout set, or with a scan in flight whose end sets one.
abbrev pub IsLive : DriftScheduler → Type 0
IsLive s =
    ((s.stopped ≡ true) × (s.timer ≡ none))
    ⊎ ((s.stopped ≡ false) × ((is_some s.timer ≡ true) ⊎ ((0 < s.waiting) × (s.inflight ≡ true))))

abbrev Waits : DriftScheduler → Type 0
Waits s = (s.waiting ≡ 0) ⊎ (s.inflight ≡ true)

abbrev pub IsSound : DriftScheduler → Type 0
IsSound s =
    IsLive s
    × IsDelay s.timer
    × (backoff_initial ≤ s.current_backoff)
    × (s.current_backoff ≤ backoff_max)
    × Waits s

-- Sound but for a timeout that is still to be set.
abbrev IsReady : DriftScheduler → Type 0
IsReady s =
    (((s.stopped ≡ true) × (s.timer ≡ none)) ⊎ (s.stopped ≡ false))
    × IsDelay s.timer
    × (backoff_initial ≤ s.current_backoff)
    × (s.current_backoff ≤ backoff_max)
    × Waits s

IsReady-sound : (s : DriftScheduler) → IsSound s → IsReady s
IsReady-sound s (inl h, d, low, high, w) = (inl h, d, low, high, w)
IsReady-sound s (inr (h, l), d, low, high, w) = (inr h, d, low, high, w)

schedule_next-IsSound :
    (delay : ℕ) (s : DriftScheduler)
    → IsDelay (some delay)
    → IsReady s
    → IsSound (schedule_next delay s)
unfolding schedule_next
schedule_next-IsSound delay s fits h = pick s.stopped refl h
  where
    pick :
        (b : Bool)
        → s.stopped ≡ b
        → IsReady s
        → IsSound (if b then s else record s { timer = some delay })
    pick true e (inl halted, d, low, high, w) = (inl halted, d, low, high, w)
    pick true e (inr runs, d, low, high, w) = cc
    pick false e (ready, old, low, high, waits) = (inr (e, inl refl), fits, low, high, waits)

refresh_now-IsSound :
    (s : DriftScheduler)
    → ((s.stopped ≡ true) × (s.timer ≡ none))
      ⊎ ((s.stopped ≡ false) × ((is_some s.timer ≡ true) ⊎ (0 < s.waiting)))
    → IsDelay s.timer
    → backoff_initial ≤ s.current_backoff
    → s.current_backoff ≤ backoff_max
    → IsSound (refresh_now s)
unfolding refresh_now
refresh_now-IsSound s live delay low high = pick s.inflight refl live
  where
    pick :
        (b : Bool)
        → s.inflight ≡ b
        → ((s.stopped ≡ true) × (s.timer ≡ none))
          ⊎ ((s.stopped ≡ false) × ((is_some s.timer ≡ true) ⊎ (0 < s.waiting)))
        → IsSound (if b then s else record s { inflight = true; scans = suc s.scans })
    pick true e (inl halted) = (inl halted, delay, low, high, inr e)
    pick true e (inr (runs, inl set)) = (inr (runs, inl set), delay, low, high, inr e)
    pick true e (inr (runs, inr more)) = (inr (runs, inr (more, e)), delay, low, high, inr e)
    pick false e (inl halted) = (inl halted, delay, low, high, inr refl)
    pick false e (inr (runs, inl set)) = (inr (runs, inl set), delay, low, high, inr refl)
    pick false e (inr (runs, inr more)) = (inr (runs, inr (more, refl)), delay, low, high, inr refl)

backoff_after_low :
    (ended : Ended) (current : ℕ)
    → backoff_initial ≤ current
    → backoff_initial ≤ backoff_after ended current
unfolding backoff_after
backoff_after_low online current h = omega arith
backoff_after_low offline current h = omega arith
backoff_after_low threw current h = omega arith

backoff_after_high : (ended : Ended) (current : ℕ) → backoff_after ended current ≤ backoff_max
unfolding backoff_after
backoff_after_high online current = omega arith
backoff_after_high offline current = omega arith
backoff_after_high threw current = omega arith

next_delay-IsDelay :
    (jitter current : ℕ)
    → jitter < span
    → backoff_initial ≤ current
    → current ≤ backoff_max
    → IsDelay (some (next_delay jitter current))
unfolding next_delay
next_delay-IsDelay jitter current small low high = inr (ground arith, ground arith)

reschedule-IsSound :
    (n delay : ℕ) (s : DriftScheduler)
    → IsDelay (some delay)
    → IsReady s
    → (0 < n) ⊎ IsLive s
    → IsSound (reschedule n delay s)
unfolding reschedule
reschedule-IsSound zero delay s fits ready (inl positive) = absurd (omega arith)
reschedule-IsSound zero delay s fits (ready, d, low, high, w) (inr live) = (live, d, low, high, w)
reschedule-IsSound (suc n) delay s fits ready live = schedule_next-IsSound delay s fits ready

finish-IsSound :
    (ended : Ended) (jitter : ℕ) (s : DriftScheduler)
    → jitter < span
    → IsSound s
    → IsSound (finish ended jitter s)
unfolding finish
finish-IsSound ended jitter s small (live, delay, low, high, waits) =
    let current = backoff_after ended s.current_backoff in
    let above = backoff_after_low ended s.current_backoff low in
    let below = backoff_after_high ended s.current_backoff in
    reschedule-IsSound s.waiting (next_delay jitter current)
      (record s { current_backoff = current; inflight = false; waiting = 0 })
      (next_delay-IsDelay jitter current small above below)
      (ready live, delay, above, below, inl refl) (still live)
  where
    ready : IsLive s → ((s.stopped ≡ true) × (s.timer ≡ none)) ⊎ (s.stopped ≡ false)
    ready (inl h) = inl h
    ready (inr (h, l)) = inr h

    still :
        IsLive s
        → (0 < s.waiting)
          ⊎ (((s.stopped ≡ true) × (s.timer ≡ none))
              ⊎ ((s.stopped ≡ false) × ((is_some s.timer ≡ true) ⊎ ((0 < 0) × (false ≡ true)))))
    still (inl h) = inr (inl h)
    still (inr (h, inl set)) = inr (inr (h, inl set))
    still (inr (h, inr (more, run))) = inl more

start-IsSound : (s : DriftScheduler) → IsSound s → IsSound (start s)
unfolding start
start-IsSound s h =
    pick s.stopped (schedule_next-IsSound first_scan_delay s (inl refl) (IsReady-sound s h))
  where
    pick :
        (b : Bool)
        → IsSound (schedule_next first_scan_delay s)
        → IsSound (if b then s else schedule_next first_scan_delay s)
    pick true k = h
    pick false k = k

step-IsSound : (s t : DriftScheduler) → Step s t → IsSound s → IsSound t
unfolding stop fire
step-IsSound _ _ (starts s) h = start-IsSound s h
step-IsSound _ _ (stops s) (live, delay, low, high, waits) =
    (inl (refl, refl), tt, low, high, waits)
step-IsSound _ _ (refreshes s) (live, delay, low, high, waits) =
    refresh_now-IsSound s (weaker live) delay low high
  where
    weaker :
        IsLive s
        → ((s.stopped ≡ true) × (s.timer ≡ none))
          ⊎ ((s.stopped ≡ false) × ((is_some s.timer ≡ true) ⊎ (0 < s.waiting)))
    weaker (inl h) = inl h
    weaker (inr (h, inl set)) = inr (h, inl set)
    weaker (inr (h, inr (more, run))) = inr (h, inr more)
step-IsSound _ _ (fires s delay e) (live, fits, low, high, waits) =
    refresh_now-IsSound (record s { timer = none; waiting = suc s.waiting }) (fired live) tt low
      high
  where
    fired :
        IsLive s
        → ((s.stopped ≡ true) × (◌≡◌ {A = Option ℕ} none none))
          ⊎ ((s.stopped ≡ false) × ((is_some {A = ℕ} none ≡ true) ⊎ (0 < suc s.waiting)))
    fired (inl (h, off)) = inl (h, refl)
    fired (inr (h, l)) = inr (h, inr (omega arith))
step-IsSound _ _ (ends s ended jitter running small) h = finish-IsSound ended jitter s small h

-- However calls, timeouts and endings of scans follow one another after `start()`: until it is
-- stopped there is a timeout, or a scan in flight whose end sets one; after a stop there is none;
-- every delay is the first one or lies between 15 minutes and a day, and so does the backoff.
pub scans_go_on : (s : DriftScheduler) → Reachable s → IsSound s
unfolding start schedule_next
scans_go_on _ started = (inr (refl, inl refl), inl refl, omega arith, omega arith, inl refl)
scans_go_on _ (later s t r step) = step-IsSound s t step (scans_go_on s r)
