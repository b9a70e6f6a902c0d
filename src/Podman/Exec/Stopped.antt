-- ===== src/Podman/Exec/Stopped.antt =====
-- What a result says about the command: never that it stopped without proof.
use signalk_doctor_server.Common.{
  ℕ, ◌≡◌, refl, ◌⊎◌, inl, inr, Bool, true, false, Option, none, some, List, String, arith,
  if◌then◌else◌,
}
use signalk_doctor_server.Errors.{CategorizedError}
use signalk_doctor_server.Podman.Exec.{
  ExecResult, success, failure, unreachable, Finish, end, timed_out, stream_error, Safe, fine,
  refused, Run, ExecOptions, exec_in_container, ExitWait, exit, running, wait_error, wait_for_exit,
  succeed, probe_failure, after_timeout, after_end, after_stream, after_start, after_create, fails,
}
use signalk_doctor_server.Podman.Exec.Polling.{
  Answered, Spaced, wait_for_exit_proven, wait_for_exit-total,
}

-- The command never began: no runtime, or the exec record was refused.
abbrev pub NeverBegan : Run → Type 0
NeverBegan r = (r.has_runtime ≡ false) ⊎ ((e : CategorizedError) × (r.created ≡ refused e))

-- What a result claims, and the proof that it needs.
abbrev pub IsHonest : Run → ExecResult → Type 0
IsHonest r (success s) = Answered r.polls s.exit_code
IsHonest r (failure f) =
    (f.still_running ≡ true) ⊎ (NeverBegan r ⊎ ((code : ℕ) × Answered r.polls code))

abbrev IsHonest? : Run → Option ExecResult → Type 0
IsHonest? r none = Unit
IsHonest? r (some x) = IsHonest r x

module _ (utf8 : List ℕ → String) (decimal : ℕ → String) (o : ExecOptions) (r : Run) where
  probe_honest :
      (e : CategorizedError) (budget interval : ℕ) (w : Option ExitWait)
      → wait_for_exit budget interval r.stopped_at r.polls ≡ w
      → IsHonest? r (probe_failure utf8 decimal e w)
  unfolding probe_failure
  probe_honest e budget interval none q = tt
  probe_honest e budget interval (some (exit code)) q =
      inr (inr (code, wait_for_exit_proven budget interval r.stopped_at r.polls code q))
  probe_honest e budget interval (some running) q = inl refl
  probe_honest e budget interval (some (wait_error x)) q = inl refl

  timeout_honest :
      (budget interval : ℕ) (w : Option ExitWait)
      → wait_for_exit budget interval r.stopped_at r.polls ≡ w
      → IsHonest? r (after_timeout utf8 decimal o r w)
  unfolding after_timeout
  timeout_honest budget interval none q = tt
  timeout_honest budget interval (some (exit code)) q =
      wait_for_exit_proven budget interval r.stopped_at r.polls code q
  timeout_honest budget interval (some running) q = inl refl
  timeout_honest budget interval (some (wait_error x)) q = inl refl

  end_honest :
      (budget interval : ℕ) (w : Option ExitWait)
      → wait_for_exit budget interval r.stopped_at r.polls ≡ w
      → IsHonest? r (after_end utf8 decimal o r w)
  unfolding after_end
  end_honest budget interval none q = tt
  end_honest budget interval (some (exit code)) q =
      wait_for_exit_proven budget interval r.stopped_at r.polls code q
  end_honest budget interval (some running) q = inl refl
  end_honest budget interval (some (wait_error x)) q = inl refl

  stream_honest : (f : Finish) → IsHonest? r (after_stream utf8 decimal o r f)
  unfolding after_stream
  stream_honest end = end_honest 2000 100 _ refl
  stream_honest timed_out = timeout_honest o.linger_grace_ms 5000 _ refl
  stream_honest (stream_error e) = probe_honest e 2000 100 _ refl

  start_honest : (s : Safe) → IsHonest? r (after_start utf8 decimal o r s)
  unfolding after_start
  start_honest fine = stream_honest r.finish
  start_honest (refused e) = probe_honest e 2000 100 _ refl

  create_honest : (s : Safe) → r.created ≡ s → IsHonest? r (after_create utf8 decimal o r s)
  unfolding after_create
  create_honest fine q = start_honest r.started
  create_honest (refused e) q = inr (inl (inr (e, q)))

  exec_honest :
      (b : Bool)
      → r.has_runtime ≡ b
      → IsHonest? r (
          if b
          then after_create utf8 decimal o r r.created
          else fails unreachable "no container runtime socket available" false none)
  exec_honest true q = create_honest r.created refl
  exec_honest false q = inr (inl (inl q))

  -- A success reports a code that some inspection gave for a command that runs no more, and a
  -- failure that does not admit that the command may still run is one where the command never
  -- began or an inspection proved that it had stopped.
  pub exec_in_container-IsHonest :
      (x : ExecResult) → exec_in_container utf8 decimal o r ≡ some x → IsHonest r x
  unfolding exec_in_container
  exec_in_container-IsHonest x e = rw e at (exec_honest r.has_runtime refl)

-- The interval between the polls that a finish leads to.
abbrev pub finish_interval : Finish → ℕ
finish_interval timed_out = 5000
finish_interval end = 100
finish_interval (stream_error e) = 100

abbrev pub poll_interval : Run → ℕ
poll_interval r = elim r.started [ fine ↦ finish_interval r.finish | refused e ↦ 100 ]

abbrev Comes : Option ExecResult → Type 0
Comes result = (x : ExecResult) × (result ≡ some x)

module _ (utf8 : List ℕ → String) (decimal : ℕ → String) (o : ExecOptions) (r : Run) where
  probe-Comes :
      (e : CategorizedError) (w : ExitWait) → Comes (probe_failure utf8 decimal e (some w))
  unfolding probe_failure
  probe-Comes e w = (_, refl)

  timeout-Comes : (w : ExitWait) → Comes (after_timeout utf8 decimal o r (some w))
  unfolding after_timeout succeed
  timeout-Comes (exit code) = (_, refl)
  timeout-Comes running = (_, refl)
  timeout-Comes (wait_error e) = (_, refl)

  end-Comes : (w : ExitWait) → Comes (after_end utf8 decimal o r (some w))
  unfolding after_end succeed
  end-Comes (exit code) = (_, refl)
  end-Comes running = (_, refl)
  end-Comes (wait_error e) = (_, refl)

  stream-Comes :
      (f : Finish)
      → Spaced (finish_interval f) r.stopped_at r.polls
      → Comes (after_stream utf8 decimal o r f)
  unfolding after_stream
  stream-Comes end s =
      let (w, q) = wait_for_exit-total 2000 100 r.stopped_at r.polls (omega arith) s in
      rw q (end-Comes w)
  stream-Comes timed_out s =
      let (w, q) =
        wait_for_exit-total o.linger_grace_ms 5000 r.stopped_at r.polls (omega arith) s in
      rw q (timeout-Comes w)
  stream-Comes (stream_error e) s =
      let (w, q) = wait_for_exit-total 2000 100 r.stopped_at r.polls (omega arith) s in
      rw q (probe-Comes e w)

  start-Comes :
      (s : Safe)
      → Spaced (elim s [ fine ↦ finish_interval r.finish | refused e ↦ 100 ]) r.stopped_at r.polls
      → Comes (after_start utf8 decimal o r s)
  unfolding after_start
  start-Comes fine s = stream-Comes r.finish s
  start-Comes (refused e) s =
      let (w, q) = wait_for_exit-total 2000 100 r.stopped_at r.polls (omega arith) s in
      rw q (probe-Comes e w)

  create-Comes :
      (s : Safe)
      → Spaced (poll_interval r) r.stopped_at r.polls
      → Comes (after_create utf8 decimal o r s)
  unfolding after_create
  create-Comes fine s = start-Comes r.started s
  create-Comes (refused e) s = (_, refl)

  -- Where every call of the runtime answers or throws and each poll waits its interval, the exec
  -- comes back with a result: neither the wait for its end nor the wait for a stopped process to go
  -- is endless.
  pub exec_in_container-total :
      Spaced (poll_interval r) r.stopped_at r.polls
      → (x : ExecResult) × (exec_in_container utf8 decimal o r ≡ some x)
  unfolding exec_in_container
  exec_in_container-total s = branch r.has_runtime
    where
      branch :
          (b : Bool)
          → Comes (
              if b
              then after_create utf8 decimal o r r.created
              else fails unreachable "no container runtime socket available" false none)
      branch true = create-Comes r.created s
      branch false = (_, refl)
