-- ===== src/LogBroker.antt =====
-- src/log-stream-broker.ts, createLogStreamBroker: one follow stream of a container's log for any
-- number of subscribers. A call, an exit of a stream and the respawn timer are each a step on
-- the state. Subscribers and streams are numbers; whether a spawn works is an argument.
mod Examples
pub mod Served
pub mod Respawn
use signalk_doctor_server.Common.{
  ℕ, suc, ◌*◌, ◌^◌, ◌<◌, ◌≡◌, min, Bool, true, false, ◌||◌, not, Option, none, some, List, [], ◌∷◌,
  ◌++◌, if◌then◌else◌, leb, ◌==◌, any, filter, is_some,
}

abbrev pub respawn_delay : ℕ
respawn_delay = 1000

abbrev pub max_respawn_delay : ℕ
max_respawn_delay = 30000

-- `spawned` counts the streams begun, and is the number of the next; `live` are the streams that
-- run: begun, not stopped and not ended. The code keeps neither; they are here to be proved about.
pub record Broker : Type 0 where
  pub subscribers : List ℕ
  pub tail : Option ℕ
  pub closed : Bool
  pub respawn_timer : Option ℕ
  pub consecutive_respawns : ℕ
  pub spawned : ℕ
  pub live : List ℕ

abbrev pub new_broker : Broker
new_broker = record {
  subscribers = [];
  tail = none;
  closed = false;
  respawn_timer = none;
  consecutive_respawns = 0;
  spawned = 0;
  live = [];
}

abbrev pub is_empty : List ℕ → Bool
is_empty [] = true
is_empty (x ∷ xs) = false

abbrev pub has : ℕ → List ℕ → Bool
has x = any λ y. y == x

-- `add` and `delete` of a JavaScript `Set`.
abbrev pub add : ℕ → List ℕ → List ℕ
add x set = if has x set then set else set ++ x ∷ []

abbrev pub delete : ℕ → List ℕ → List ℕ
delete x = filter λ y. not (y == x)

abbrev pub cap : ℕ → ℕ
cap delay = if leb respawn_delay delay then max_respawn_delay else delay * 30

module _ (delay : ℕ) where
  unfoldable pub schedule_respawn : Broker → Broker
  schedule_respawn b =
      if is_some b.respawn_timer || b.closed
      then b
      else if is_empty b.subscribers
      then b
      else record b {
        respawn_timer = some (min (delay * 2 ^ b.consecutive_respawns) (cap delay));
        consecutive_respawns = suc b.consecutive_respawns;
      }

  spawn : Bool → Broker → Broker
  unfolding schedule_respawn
  spawn true b = record b {
    tail = some b.spawned;
    spawned = suc b.spawned;
    live = b.spawned ∷ b.live;
  }
  spawn false b = schedule_respawn (record b { spawned = suc b.spawned })

  unfoldable pub spawn_if_needed : Bool → Broker → Broker
  unfolding spawn
  spawn_if_needed ok b = if is_some b.tail || b.closed then b else spawn ok b

  abbrev is_tail : ℕ → Option ℕ → Bool
  is_tail stream none = false
  is_tail stream (some t) = t == stream

  -- `onExit` of a stream.
  unfoldable pub on_exit : ℕ → Broker → Broker
  unfolding schedule_respawn
  on_exit stream b =
      if is_tail stream b.tail then schedule_respawn (record b { tail = none }) else b

  stop_live : Option ℕ → List ℕ → List ℕ
  stop_live none live = live
  stop_live (some stream) live = delete stream live

  unfoldable pub stop_tail : Broker → Broker
  unfolding stop_live
  stop_tail b = record b { respawn_timer = none; tail = none; live = stop_live b.tail b.live }

  unfoldable pub subscribe : Bool → ℕ → Broker → Broker
  unfolding spawn_if_needed
  subscribe ok sub b =
      if b.closed then b else spawn_if_needed ok (record b { subscribers = add sub b.subscribers })

  removed : Broker → Broker
  unfolding stop_tail
  removed b = if is_empty b.subscribers then stop_tail b else b

  -- The function that `subscribe` hands back.
  unfoldable pub unsubscribe : ℕ → Broker → Broker
  unfolding removed
  unsubscribe sub b =
      if has sub b.subscribers
      then removed (record b { subscribers = delete sub b.subscribers })
      else b

  -- The broker closed, and the subscribers whose `onClose` is called.
  unfoldable pub close : Broker → Broker × List ℕ
  unfolding stop_tail
  close b =
      if b.closed
      then (b, [])
      else (stop_tail (record b { closed = true; subscribers = [] }), b.subscribers)

  -- The respawn timer fires.
  unfoldable pub respawn : Bool → Broker → Broker
  unfolding spawn_if_needed
  respawn ok b =
      let fired = record b { respawn_timer = none } in
      if is_empty b.subscribers then fired else spawn_if_needed ok fired

  -- The indices of the subscribers that throw on a line, from `i` on.
  throwing : (ℕ → Bool) → ℕ → List ℕ → List ℕ
  throwing throws i [] = []
  throwing throws i (sub ∷ subs) =
      let rest = throwing throws (suc i) subs in if throws sub then i ∷ rest else rest

  -- A line: the state after, who got the line, and the errors that were reported.
  unfoldable pub fan_out : (ℕ → Bool) → Broker → Broker × List ℕ × List ℕ
  unfolding throwing
  fan_out throws b =
      (record b { consecutive_respawns = 0 }, b.subscribers, throwing throws 0 b.subscribers)

  pub data Step : Broker → Broker → Type 0 where
    subscribes : (b : Broker) (ok : Bool) (sub : ℕ) → Step b (subscribe ok sub b)
    unsubscribes : (b : Broker) (sub : ℕ) → Step b (unsubscribe sub b)
    closes : (b : Broker) → Step b (close b).0
    -- A stream ends and says so; one that was stopped before may still do that.
    exits :
        (b : Broker) (stream : ℕ)
        → stream < b.spawned
        → Step b (on_exit stream (record b { live = delete stream b.live }))
    line : (b : Broker) (throws : ℕ → Bool) → Step b (fan_out throws b).0
    timer : (b : Broker) (ok : Bool) (d : ℕ) → b.respawn_timer ≡ some d → Step b (respawn ok b)

  pub data Reachable : Broker → Type 0 where
    created : Reachable new_broker
    later : (b c : Broker) → Reachable b → Step b c → Reachable c
