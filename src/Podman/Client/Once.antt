-- ===== src/Podman/Client/Once.antt =====
-- The daemon is asked once.
use signalk_doctor_server.Common.{
  ℕ, suc, ◌+◌, ◌≤◌, ◌≡◌, refl, ◌⊎◌, inl, inr, Bool, true, false, none, some, arith, if◌then◌else◌,
  is_some,
}
use signalk_doctor_server.Podman.Client.{
  Cache, resolve_runtime, ask_version, detected, Step, calls, asks, no_socket, answered, Reachable,
  fresh, later,
}

abbrev one_if : Bool → ℕ
one_if true = 1
one_if false = 0

module _ {R : Type 0} where
  -- Without a runtime every detection but one in flight found no socket, and nobody was asked but
  -- by that one; with a runtime one detection found it and asked, and none is in flight.
  abbrev IsCounted : Cache R → Type 0
  IsCounted c =
      ((is_some c.cached_runtime ≡ false)
        × (c.detections ≡ c.socketless + one_if c.in_flight)
        × (c.asks ≡ one_if c.asking)
        × ((c.asking ≡ false) ⊎ (c.in_flight ≡ true)))
      ⊎ ((is_some c.cached_runtime ≡ true)
          × (c.in_flight ≡ false)
          × (c.asking ≡ false)
          × (c.detections ≡ c.socketless + 1)
          × (c.asks ≡ 1))

  calls-IsCounted : (c : Cache R) → IsCounted c → IsCounted (resolve_runtime c)
  unfolding resolve_runtime
  calls-IsCounted c h = pick (is_some c.cached_runtime) refl c.in_flight refl h
    where
      asked : Cache R
      asked = record c {
        in_flight = true;
        waiting = suc c.waiting;
        detections = if c.in_flight then c.detections else suc c.detections;
      }

      begun :
          (f : Bool)
          → c.detections ≡ c.socketless + one_if f
          → (if f then c.detections else suc c.detections) ≡ c.socketless + 1
      begun true count = count
      begun false count = omega (arith, count)

      pick :
          (b : Bool)
          → is_some c.cached_runtime ≡ b
          → (f : Bool) → c.in_flight ≡ f
          → IsCounted c
          → IsCounted (if b then c else asked)
      pick true e f g old = old
      pick false e f g (inl (lacking, count, asked_by, flying)) =
          inl (e, begun c.in_flight count, asked_by, inr refl)
      pick false e f g (inr (has_one, idle, silent, count, once)) = cc

  asks-IsCounted :
      (c : Cache R)
      → c.in_flight ≡ true
      → c.asking ≡ false
      → IsCounted c
      → IsCounted (ask_version c)
  unfolding ask_version
  asks-IsCounted c running silent (inl (lacking, count, asked_by, flying)) =
      inl (lacking, count, rw asked_by (rw silent refl), inr running)
  asks-IsCounted c running silent (inr (has_one, idle, quiet, count, once)) = cc

  no_socket-IsCounted :
      (c : Cache R)
      → c.in_flight ≡ true
      → c.asking ≡ false
      → IsCounted c
      → IsCounted (detected none c)
  unfolding detected
  no_socket-IsCounted c running silent (inl (lacking, count, asked_by, flying)) =
      let flown : c.detections ≡ c.socketless + 1 = rw count (rw running refl) in
      let unasked : c.asks ≡ 0 = rw asked_by (rw silent refl) in
      inl (lacking, omega (arith, flown), unasked, inl refl)
  no_socket-IsCounted c running silent (inr (has_one, idle, quiet, count, once)) = cc

  answered-IsCounted :
      (c : Cache R) (found : R)
      → c.asking ≡ true
      → IsCounted c
      → IsCounted (detected (some found) c)
  unfolding detected
  answered-IsCounted c found asking (inl (lacking, count, asked_by, inl quiet)) = cc
  answered-IsCounted c found asking (inl (lacking, count, asked_by, inr running)) =
      let flown : c.detections ≡ c.socketless + 1 = rw count (rw running refl) in
      let once : c.asks ≡ 1 = rw asked_by (rw asking refl) in inr (refl, refl, refl, flown, once)
  answered-IsCounted c found asking (inr (has_one, idle, quiet, count, once)) = cc

  step-IsCounted : (c d : Cache R) → Step c d → IsCounted c → IsCounted d
  step-IsCounted _ _ (calls c) h = calls-IsCounted c h
  step-IsCounted _ _ (asks c running silent) h = asks-IsCounted c running silent h
  step-IsCounted _ _ (no_socket c running silent) h = no_socket-IsCounted c running silent h
  step-IsCounted _ _ (answered c found asking) h = answered-IsCounted c found asking h

  Reachable-IsCounted : (c : Cache R) → Reachable c → IsCounted c
  Reachable-IsCounted _ fresh = inl (refl, refl, refl, inl refl)
  Reachable-IsCounted _ (later c d r step) = step-IsCounted c d step (Reachable-IsCounted c r)

  -- However many callers there are and however they overlap, a daemon is asked for its version at
  -- most once in the life of the process, also where it fails to answer, and exactly once when a
  -- runtime is known; the looks for a socket are at most one more than those that found none. All
  -- that wait for a detection go on before any new call.
  pub detections_bounded :
      (c : Cache R)
      → Reachable c
      → (c.asks ≤ 1)
        × (c.detections ≤ c.socketless + 1)
        × ((is_some c.cached_runtime ≡ false) ⊎ (c.asks ≡ 1))
  detections_bounded c r = bound (Reachable-IsCounted c r)
    where
      at_most_one : (b : Bool) → one_if b ≤ 1
      at_most_one true = omega arith
      at_most_one false = omega arith

      bound :
          IsCounted c
          → (c.asks ≤ 1)
            × (c.detections ≤ c.socketless + 1)
            × ((is_some c.cached_runtime ≡ false) ⊎ (c.asks ≡ 1))
      bound (inl (lacking, count, asked_by, flying)) = (
        omega (arith, asked_by, at_most_one c.asking),
        omega (arith, count, at_most_one c.in_flight),
        inl lacking,
      )
      bound (inr (has_one, idle, quiet, count, once)) =
          (omega (arith, once), omega (arith, count), inr once)
