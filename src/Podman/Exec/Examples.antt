-- ===== src/Podman/Exec/Examples.antt =====
-- The exec at concrete runs.
use signalk_doctor_server.Common.{
  ℕ, zero, suc, ◌+◌, ◌*◌, ◌≡◌, refl, true, false, none, some, List, [], String, arith,
}
use signalk_doctor_server.Podman.Tail.{write_all, tail_text}
use signalk_doctor_server.Podman.Exec.{
  ExecResult, success, Inspection, inspected, timed_out, fine, Run, ExecOptions, exec_in_container,
  poll, wait_for_exit, after_create, after_start, after_stream, after_timeout, succeed, collected,
}
use signalk_doctor_server.Podman.Exec.Polling.{Spaced}
use signalk_doctor_server.Podman.Exec.Stopped.{
  IsHonest, exec_in_container-IsHonest, exec_in_container-total,
}

abbrev no_text : List ℕ → String
no_text bytes = ""

abbrev no_digits : ℕ → String
no_digits n = ""

abbrev options : ExecOptions
options = record { separate_stderr = false; timeout_ms = 1000; linger_grace_ms = 10000 }

-- The command runs at the first poll and has exited with 3 at the second.
abbrev answers : ℕ → Inspection
answers zero = inspected true none
answers (suc i) = inspected false (some 3)

abbrev slow_run : Run
slow_run = record {
  has_runtime = true;
  created = fine;
  started = fine;
  stdout = [];
  stderr = [];
  interleaved = [];
  finish = timed_out;
  stopped_at = 1000;
  polls = record { answer = answers; time = λ i. 1000 + i * 5000 };
}

exec_in_container-IsHonest_example :
    IsHonest slow_run (success (record { exit_code = 3; output = ""; stderr = none }))
unfolding exec_in_container after_create after_start after_stream after_timeout wait_for_exit poll
    succeed collected write_all tail_text
exec_in_container-IsHonest_example =
    exec_in_container-IsHonest no_text no_digits options slow_run
      (success (record { exit_code = 3; output = ""; stderr = none })) refl

spaced : Spaced 5000 1000 slow_run.polls
spaced = (omega arith, λ i. omega arith)

exec_in_container-total_example :
    (x : ExecResult) × (exec_in_container no_text no_digits options slow_run ≡ some x)
exec_in_container-total_example = exec_in_container-total no_text no_digits options slow_run spaced
