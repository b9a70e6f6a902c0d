-- ===== src/LogBroker/Examples.antt =====
-- A broker whose stream ends and comes back while one client listens.
use signalk_doctor_server.Common.{◌≡◌, refl, arith, true, some, [], ◌∷◌}
use signalk_doctor_server.LogBroker.{
  Broker, new_broker, subscribe, on_exit, respawn, spawn_if_needed, schedule_respawn, unsubscribe,
  stop_tail, Reachable, created, later, subscribes, exits,
}
use signalk_doctor_server.LogBroker.Served.{IsSound}
use signalk_doctor_server.LogBroker.Respawn.{stream_follows_listeners}

abbrev listening : Broker
listening = subscribe 1000 true 7 new_broker

abbrev cut : Broker
cut = on_exit 1000 0 (record listening { live = [] })

cut_reached : Reachable 1000 cut
unfolding subscribe spawn_if_needed on_exit schedule_respawn
cut_reached =
    later listening cut (later new_broker listening created (subscribes new_broker true 7))
      (exits listening 0 (omega arith))

stream_follows_listeners_example : IsSound 1000 cut
stream_follows_listeners_example = stream_follows_listeners 1000 cut cut_reached

due : cut.respawn_timer ≡ some 1000
unfolding subscribe spawn_if_needed on_exit schedule_respawn
due = refl

back : (respawn 1000 true cut).live ≡ 1 ∷ []
unfolding subscribe spawn_if_needed on_exit schedule_respawn respawn
back = refl

left : (unsubscribe 1000 7 (respawn 1000 true cut)).live ≡ []
unfolding subscribe spawn_if_needed on_exit schedule_respawn respawn unsubscribe stop_tail
left = refl
