-- ===== src/LogBroker/Respawn.antt =====
-- The stream is there while somebody listens, and only then.
use signalk_doctor_server.Common.{
  ℕ, ◌≡◌, refl, ◌⊎◌, inl, inr, Bool, true, false, Option, none, some, List, [], ◌∷◌, arith,
  if◌then◌else◌, is_some,
}
use signalk_doctor_server.LogBroker.{
  Broker, is_empty, has, add, delete, schedule_respawn, spawn_if_needed, is_tail, on_exit,
  stop_tail, subscribe, removed, unsubscribe, close, respawn, fan_out, Step, subscribes,
  unsubscribes, closes, exits, line, timer, Reachable, created, later,
}
use signalk_doctor_server.LogBroker.Served.{
  tail_list, IsServed, IsSound, Listens, schedule_respawn-IsSound, spawn_if_needed-IsSound,
  stop_tail-IsSound, has_added,
}

module _ (delay : ℕ) where
  subscribe-IsSound :
      (ok : Bool) (sub : ℕ) (b : Broker)
      → IsSound delay b
      → IsSound delay (subscribe delay ok sub b)
  unfolding subscribe
  subscribe-IsSound ok sub b (served, ready) = pick b.closed refl
    where
      pick :
          (x : Bool)
          → b.closed ≡ x
          → IsSound delay (
              if x
              then b
              else spawn_if_needed delay ok (record b { subscribers = add sub b.subscribers }))
      pick true e = (served, ready)
      pick false e =
          spawn_if_needed-IsSound delay ok (record b { subscribers = add sub b.subscribers })
            (has_added delay sub b.subscribers) e ready

  unsubscribe-IsSound :
      (sub : ℕ) (b : Broker) → IsSound delay b → IsSound delay (unsubscribe delay sub b)
  unfolding unsubscribe removed
  unsubscribe-IsSound sub b (served, ready) = pick (has sub b.subscribers) refl served
    where
      nobody : (l : List ℕ) → is_empty l ≡ true → has sub l ≡ true → ⊥
      nobody [] e h = cc
      nobody (x ∷ xs) e h = cc

      fewer : Broker
      fewer = record b { subscribers = delete sub b.subscribers }

      left :
          (x : Bool)
          → is_empty (delete sub b.subscribers) ≡ x
          → b.closed ≡ false
          → (is_some b.tail ≡ true) ⊎ (is_some b.respawn_timer ≡ true)
          → IsSound delay (if x then stop_tail delay fewer else fewer)
      left true e is_on runs = stop_tail-IsSound delay fewer e ready
      left false e is_on runs = (inr (e, is_on, runs), ready)

      pick :
          (x : Bool)
          → has sub b.subscribers ≡ x
          → IsServed delay b
          → IsSound delay (
              if x
              then if is_empty (delete sub b.subscribers) then stop_tail delay fewer else fewer
              else b)
      pick false e old = (old, ready)
      pick true e (inl (empty, no_tail, off)) = absurd (nobody b.subscribers empty e)
      pick true e (inr (some_listen, is_on, runs)) =
          left (is_empty (delete sub b.subscribers)) refl is_on runs

  close-IsSound : (b : Broker) → IsSound delay b → IsSound delay (close delay b).0
  unfolding close
  close-IsSound b (served, ready) = pick b.closed
    where
      shut : Broker
      shut = record b { closed = true; subscribers = [] }

      either : Bool → Broker × List ℕ
      either x = if x then (b, []) else (stop_tail delay shut, b.subscribers)

      pick : (x : Bool) → IsSound delay (either x).0
      pick true = (served, ready)
      pick false = stop_tail-IsSound delay shut refl ready

  on_exit-IsSound :
      (stream : ℕ) (b : Broker)
      → IsSound delay b
      → IsSound delay (on_exit delay stream (record b { live = delete stream b.live }))
  unfolding on_exit
  on_exit-IsSound stream b (served, (live, below, fits)) = pick (is_tail delay stream b.tail) refl
    where
      gone : Broker
      gone = record b { live = delete stream b.live; tail = none }

      ended :
          (t : Option ℕ) (l : List ℕ)
          → l ≡ tail_list t
          → is_tail delay stream t ≡ true
          → delete stream l ≡ []
      ended none l e h = cc
      ended (some t) l e h = rw e (ground arith)

      kept :
          (t : Option ℕ) (l : List ℕ)
          → l ≡ tail_list t
          → is_tail delay stream t ≡ false
          → delete stream l ≡ tail_list t
      kept none l e h = rw e refl
      kept (some t) l e h = rw e (ground arith)

      listens : IsServed delay b → Listens delay gone
      listens (inl (empty, no_tail, off)) = inl (empty, off)
      listens (inr (some_listen, is_on, runs)) = inr (some_listen, is_on)

      pick :
          (x : Bool)
          → is_tail delay stream b.tail ≡ x
          → IsSound delay
              (if x then schedule_respawn delay gone else record b { live = delete stream b.live })
      pick true e =
          schedule_respawn-IsSound delay gone refl (listens served)
            (ended b.tail b.live live e, tt, fits)
      pick false e = (served, (kept b.tail b.live live e, below, fits))

  respawn-IsSound : (ok : Bool) (b : Broker) → IsSound delay b → IsSound delay (respawn delay ok b)
  unfolding respawn
  respawn-IsSound ok b (served, (live, below, fits)) = pick (is_empty b.subscribers) refl served
    where
      fired : Broker
      fired = record b { respawn_timer = none }

      pick :
          (x : Bool)
          → is_empty b.subscribers ≡ x
          → IsServed delay b
          → IsSound delay (if x then fired else spawn_if_needed delay ok fired)
      pick true e (inl (empty, no_tail, off)) = (inl (e, no_tail, refl), (live, below, tt))
      pick true e (inr (some_listen, is_on, runs)) = cc
      pick false e (inl (empty, no_tail, off)) = cc
      pick false e (inr (some_listen, is_on, runs)) =
          spawn_if_needed-IsSound delay ok fired e is_on (live, below, tt)

  step-IsSound : (b c : Broker) → Step delay b c → IsSound delay b → IsSound delay c
  unfolding fan_out
  step-IsSound _ _ (subscribes b ok sub) h = subscribe-IsSound ok sub b h
  step-IsSound _ _ (unsubscribes b sub) h = unsubscribe-IsSound sub b h
  step-IsSound _ _ (closes b) h = close-IsSound b h
  step-IsSound _ _ (exits b stream old) h = on_exit-IsSound stream b h
  step-IsSound _ _ (line b throws) h = h
  step-IsSound _ _ (timer b ok d e) h = respawn-IsSound ok b h

  -- Whatever the order of subscriptions, closings, exits, lines and timers: while somebody listens
  -- a stream runs or a respawn is due, while nobody does neither is, at most the broker's own
  -- stream is ever open, so none leaks, and a respawn never waits longer than the cap.
  pub stream_follows_listeners : (b : Broker) → Reachable delay b → IsSound delay b
  stream_follows_listeners _ created = (inl (refl, refl, refl), (refl, tt, tt))
  stream_follows_listeners _ (later b c r step) =
      step-IsSound b c step (stream_follows_listeners b r)
