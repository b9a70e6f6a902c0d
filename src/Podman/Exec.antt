-- ===== src/Podman/Exec.antt =====
-- src/podman/exec.ts: one command inside a container, and whether it is proven to have stopped.
-- The runtime's answers and the clock are arguments; a chunk of output is a list of bytes.
mod Examples
pub mod Polling
pub mod Stopped
use signalk_doctor_server.Common.{
  ℕ, zero, suc, ◌+◌, ◌/◌, Bool, true, false, Option, none, some, List, String, ◌^^◌, if◌then◌else◌,
  leb,
}
use signalk_doctor_server.Errors.{
  ErrorKind, CategorizedError, network, registry_unavailable, auth, disk, permission, not_found,
  unknown,
}
use signalk_doctor_server.Podman.Tail.{empty, write_all, tail_limit, tail_text}

abbrev kind_name : ErrorKind → String
kind_name network = "network"
kind_name registry_unavailable = "registry-unavailable"
kind_name auth = "auth"
kind_name disk = "disk"
kind_name permission = "permission"
kind_name not_found = "not-found"
kind_name unknown = "unknown"

-- `${error.kind}: ${error.userMessage}`
abbrev pub describe : CategorizedError → String
describe e = kind_name e.kind ^^ ": " ^^ e.user_message

pub record ExecSuccess : Type 0 where
  pub exit_code : ℕ
  pub output : String
  pub stderr : Option String

pub data FailureReason : Type 0 where
  timeout unreachable runtime : FailureReason

pub record ExecFailure : Type 0 where
  pub reason : FailureReason
  pub detail : String
  pub still_running : Bool
  pub error : Option CategorizedError

pub data ExecResult : Type 0 where
  success : ExecSuccess → ExecResult
  failure : ExecFailure → ExecResult

-- One answer of `exec.inspect()`, as `safe` hands it over: an error, or Running and ExitCode.
pub data Inspection : Type 0 where
  inspect_error : CategorizedError → Inspection
  inspected : (running : Bool) (exit_code : Option ℕ) → Inspection

pub data ExitWait : Type 0 where
  exit : ℕ → ExitWait
  running : ExitWait
  wait_error : CategorizedError → ExitWait

-- The polls of one wait: the answer to each, and the time at which each answer is there.
pub record Polls : Type 0 where
  pub answer : ℕ → Inspection
  pub time : ℕ → ℕ

abbrev pub code_or_one : Option ℕ → ℕ
code_or_one none = 1
code_or_one (some code) = code

-- The loop of `waitForExit` from poll `i` on; `none` means that the fuel ran out.
unfoldable pub poll : ℕ → ℕ → Polls → ℕ → Option ExitWait
poll zero deadline p i = none
poll (suc fuel) deadline p i = elim (p.answer i) [
  | inspect_error e ↦ some (wait_error e)
  | inspected is_running code ↦ elim is_running [
    | false ↦ some (exit (code_or_one code))
    | true ↦ elim (leb deadline (p.time i)) [
      | true ↦ some running
      | false ↦ poll fuel deadline p (suc i)
    ]
  ]
]

-- `waitForExit(exec, budget, interval)` begun at time `now`.
unfoldable pub wait_for_exit : (budget interval now : ℕ) → Polls → Option ExitWait
unfolding poll
wait_for_exit budget interval now p = poll (suc (suc (budget / interval))) (now + budget) p 0

-- How the attach stream ended.
pub data Finish : Type 0 where
  end timed_out : Finish
  stream_error : CategorizedError → Finish

pub data Safe : Type 0 where
  fine : Safe
  refused : CategorizedError → Safe

-- All that the runtime does during one call.
pub record Run : Type 0 where
  pub has_runtime : Bool
  pub created : Safe
  pub started : Safe
  pub stdout : List (List ℕ)
  pub stderr : List (List ℕ)
  pub interleaved : List (List ℕ)
  pub finish : Finish
  pub stopped_at : ℕ
  pub polls : Polls

pub record ExecOptions : Type 0 where
  pub separate_stderr : Bool
  pub timeout_ms : ℕ
  pub linger_grace_ms : ℕ

abbrev pub fails : FailureReason → String → Bool → Option CategorizedError → Option ExecResult
fails reason detail still_running error = some (
    failure
      (record { reason = reason; detail = detail; still_running = still_running; error = error }))

abbrev not_exit : ExitWait → Bool
not_exit (exit code) = false
not_exit running = true
not_exit (wait_error e) = true

module _ (utf8 : List ℕ → String) (decimal : ℕ → String) where
  collected : List (List ℕ) → String
  collected chunks = tail_text utf8 (write_all tail_limit chunks empty)

  succeed : ExecOptions → Run → ℕ → Option ExecResult
  unfolding collected
  succeed o r code = some (
      success (record {
        exit_code = code;
        output = collected (if o.separate_stderr then r.stdout else r.interleaved);
        stderr = if o.separate_stderr then some (collected r.stderr) else none;
      }))

  -- A stream that could not be started, or that broke: probe before claiming anything.
  probe_failure : CategorizedError → Option ExitWait → Option ExecResult
  probe_failure e none = none
  probe_failure e (some w) = fails runtime (describe e) (not_exit w) (some e)

  after_timeout : ExecOptions → Run → Option ExitWait → Option ExecResult
  unfolding succeed
  after_timeout o r none = none
  after_timeout o r (some (exit code)) = succeed o r code
  after_timeout o r (some (wait_error e)) = fails runtime (describe e) true (some e)
  after_timeout o r (some running) =
      fails timeout
        ("command did not finish within "
          ^^ decimal ((o.timeout_ms + 500) / 1000)
          ^^ "s and was still running after a further "
          ^^ decimal ((o.linger_grace_ms + 500) / 1000)
          ^^ "s grace — it may still be running inside the container")
        true none

  after_end : ExecOptions → Run → Option ExitWait → Option ExecResult
  unfolding succeed
  after_end o r none = none
  after_end o r (some (exit code)) = succeed o r code
  after_end o r (some (wait_error e)) = fails runtime (describe e) true (some e)
  after_end o r (some running) =
      fails runtime "exec finished streaming but never reported an exit code" true none

  after_stream : ExecOptions → Run → Finish → Option ExecResult
  unfolding wait_for_exit after_timeout after_end probe_failure
  after_stream o r timed_out =
      after_timeout o r (wait_for_exit o.linger_grace_ms 5000 r.stopped_at r.polls)
  after_stream o r (stream_error e) = probe_failure e (wait_for_exit 2000 100 r.stopped_at r.polls)
  after_stream o r end = after_end o r (wait_for_exit 2000 100 r.stopped_at r.polls)

  after_start : ExecOptions → Run → Safe → Option ExecResult
  unfolding after_stream
  after_start o r (refused e) = probe_failure e (wait_for_exit 2000 100 r.stopped_at r.polls)
  after_start o r fine = after_stream o r r.finish

  after_create : ExecOptions → Run → Safe → Option ExecResult
  unfolding after_start
  after_create o r (refused e) = fails runtime (describe e) false (some e)
  after_create o r fine = after_start o r r.started

  -- `none` only where the fuel of a wait ran out.
  unfoldable pub exec_in_container : ExecOptions → Run → Option ExecResult
  unfolding after_create
  exec_in_container o r =
      if r.has_runtime
      then after_create o r r.created
      else fails unreachable "no container runtime socket available" false none
