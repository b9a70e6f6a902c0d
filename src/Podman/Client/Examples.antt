-- ===== src/Podman/Client/Examples.antt =====
-- Two callers at once, on a host whose socket is not there the first time.
use signalk_doctor_server.Common.{ℕ, ◌+◌, ◌≤◌, ◌≡◌, refl, ◌⊎◌, false, none, some, is_some}
use signalk_doctor_server.Podman.Client.{
  Cache, empty_cache, resolve_runtime, ask_version, detected, calls, asks, no_socket, answered,
  Reachable, fresh, later,
}
use signalk_doctor_server.Podman.Client.Once.{detections_bounded}

abbrev both_wait : Cache ℕ
both_wait = resolve_runtime (resolve_runtime empty_cache)

abbrev nothing_there : Cache ℕ
nothing_there = detected none both_wait

abbrev asked : Cache ℕ
asked = ask_version (resolve_runtime nothing_there)

abbrev known : Cache ℕ
known = detected (some 7) asked

nothing_reached : Reachable nothing_there
unfolding resolve_runtime
nothing_reached =
    later both_wait nothing_there
      (later (resolve_runtime empty_cache) both_wait
        (later empty_cache (resolve_runtime empty_cache) fresh (calls empty_cache))
        (calls (resolve_runtime empty_cache)))
      (no_socket both_wait refl refl)

known_reached : Reachable known
unfolding resolve_runtime ask_version detected
known_reached =
    later asked known
      (later (resolve_runtime nothing_there) asked
        (later nothing_there (resolve_runtime nothing_there) nothing_reached (calls nothing_there))
        (asks (resolve_runtime nothing_there) refl refl))
      (answered asked 7 refl)

detections_bounded_example :
    (known.asks ≤ 1)
    × (known.detections ≤ known.socketless + 1)
    × ((is_some known.cached_runtime ≡ false) ⊎ (known.asks ≡ 1))
detections_bounded_example = detections_bounded known known_reached
