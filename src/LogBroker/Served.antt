-- ===== src/LogBroker/Served.antt =====
-- What a sound broker is, and that each piece of the code keeps it.
use signalk_doctor_server.Common.{
  ℕ, suc, ◌*◌, ◌^◌, ◌<◌, ◌≤◌, ◌≡◌, refl, ap, ◌∙◌, min, ◌⊎◌, inl, inr, Bool, true, false, ◌||◌,
  Option, none, some, List, [], ◌∷◌, ◌++◌, arith, if◌then◌else◌, is_some,
}
use signalk_doctor_server.LogBroker.{
  Broker, is_empty, has, add, cap, schedule_respawn, spawn, spawn_if_needed, stop_live, stop_tail,
}

-- The streams that run: the tail, and no other.
abbrev pub tail_list : Option ℕ → List ℕ
tail_list none = []
tail_list (some t) = t ∷ []

abbrev pub IsBelow : ℕ → Option ℕ → Type 0
IsBelow n none = Unit
IsBelow n (some t) = t < n

module _ (delay : ℕ) where
  abbrev pub IsDelay : Option ℕ → Type 0
  IsDelay none = Unit
  IsDelay (some d) = d ≤ cap delay

  -- Nobody listens and nothing runs or is due, or somebody does and a stream runs or is due.
  abbrev pub IsServed : Broker → Type 0
  IsServed b =
      ((is_empty b.subscribers ≡ true) × (b.tail ≡ none) × (b.respawn_timer ≡ none))
      ⊎ ((is_empty b.subscribers ≡ false)
          × (b.closed ≡ false)
          × ((is_some b.tail ≡ true) ⊎ (is_some b.respawn_timer ≡ true)))

  -- Sound but for the stream, which may be missing.
  abbrev pub IsReady : Broker → Type 0
  IsReady b = (b.live ≡ tail_list b.tail) × IsBelow b.spawned b.tail × IsDelay b.respawn_timer

  abbrev pub IsSound : Broker → Type 0
  IsSound b = IsServed b × IsReady b

  -- Who listens, where no stream runs.
  abbrev pub Listens : Broker → Type 0
  Listens b =
      ((is_empty b.subscribers ≡ true) × (b.respawn_timer ≡ none))
      ⊎ ((is_empty b.subscribers ≡ false) × (b.closed ≡ false))

  pub schedule_respawn-IsSound :
      (b : Broker) → b.tail ≡ none → Listens b → IsReady b → IsSound (schedule_respawn delay b)
  unfolding schedule_respawn
  schedule_respawn-IsSound b no_tail listens ready =
      pick (is_some b.respawn_timer || b.closed) refl listens
    where
      due : Broker
      due = record b {
        respawn_timer = some (min (delay * 2 ^ b.consecutive_respawns) (cap delay));
        consecutive_respawns = suc b.consecutive_respawns;
      }

      set : (x : Bool) → is_empty b.subscribers ≡ x → Listens b → IsSound (if x then b else due)
      set true e (inl (empty, off)) = (inl (empty, no_tail, off), ready)
      set true e (inr (some_listen, is_on)) = cc
      set false e (inl (empty, off)) = cc
      set false e (inr (some_listen, is_on)) =
          let (live, below, fits) = ready in
          (inr (some_listen, is_on, inr refl), (live, below, omega arith))

      pick :
          (x : Bool)
          → (is_some b.respawn_timer || b.closed) ≡ x
          → Listens b
          → IsSound (if x then b else if is_empty b.subscribers then b else due)
      pick false e l = set (is_empty b.subscribers) refl l
      pick true e (inl (empty, off)) = (inl (empty, no_tail, off), ready)
      pick true e (inr (some_listen, is_on)) = (inr (some_listen, is_on, inr (ground arith)), ready)

  spawn-IsSound :
      (ok : Bool) (b : Broker)
      → b.tail ≡ none
      → is_empty b.subscribers ≡ false
      → b.closed ≡ false
      → IsReady b
      → IsSound (spawn delay ok b)
  unfolding spawn
  spawn-IsSound true b no_tail some_listen is_on (live, below, fits) =
      let none_live : b.live ≡ [] = live ∙ ap tail_list no_tail in
      (inr (some_listen, is_on, inl refl), (ap (λ l. b.spawned ∷ l) none_live, omega arith, fits))
  spawn-IsSound false b no_tail some_listen is_on (live, below, fits) =
      schedule_respawn-IsSound (record b { spawned = suc b.spawned }) no_tail
        (inr (some_listen, is_on)) (live, rw no_tail tt, fits)

  pub spawn_if_needed-IsSound :
      (ok : Bool) (b : Broker)
      → is_empty b.subscribers ≡ false
      → b.closed ≡ false
      → IsReady b
      → IsSound (spawn_if_needed delay ok b)
  unfolding spawn_if_needed
  spawn_if_needed-IsSound ok b some_listen is_on ready = pick (is_some b.tail || b.closed) refl
    where
      pick :
          (x : Bool)
          → (is_some b.tail || b.closed) ≡ x
          → IsSound (if x then b else spawn delay ok b)
      pick true e = (inr (some_listen, is_on, inl (ground arith)), ready)
      pick false e = spawn-IsSound ok b (ground arith) some_listen is_on ready

  pub stop_tail-IsSound :
      (b : Broker) → is_empty b.subscribers ≡ true → IsReady b → IsSound (stop_tail delay b)
  unfolding stop_tail stop_live
  stop_tail-IsSound b empty (live, below, fits) =
      (inl (empty, refl, refl), (stopped b.tail b.live live, tt, tt))
    where
      stopped : (t : Option ℕ) (l : List ℕ) → l ≡ tail_list t → stop_live delay t l ≡ []
      stopped none l e = e
      stopped (some t) l e = rw e (ground arith)

  pub has_added : (sub : ℕ) (set : List ℕ) → is_empty (add sub set) ≡ false
  has_added sub [] = refl
  has_added sub (x ∷ set) = either (has sub (x ∷ set))
    where
      either : (b : Bool) → is_empty (if b then x ∷ set else x ∷ set ++ sub ∷ []) ≡ false
      either true = refl
      either false = refl
