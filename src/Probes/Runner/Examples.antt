-- ===== src/Probes/Runner/Examples.antt =====
-- Three probes: one that hangs, one that throws, and one that spends its whole budget.
use signalk_doctor_server.Common.{ℕ, ◌≡◌, refl, Option, none, List, [], ◌∷◌, String}
use signalk_doctor_server.Probes.Budget.{
  probe_timeout_ms, start_probe_deadline, run_hops, hop, remaining,
}
use signalk_doctor_server.Probes.Runner.{
  fail, ProbeResult, resolves, rejects, hangs, ProbeSpec, run_with_timeout,
}
use signalk_doctor_server.Probes.Runner.Honest.{budget_heard}

abbrev digits : ℕ → String
digits n = ""

abbrev number : String → Option ℕ
number raw = none

abbrev verdict : ProbeResult
verdict = record {
  id = "updater-health";
  label = "Updater HTTP health";
  status = fail;
  message = "cannot reach the updater";
  duration_ms = 7500;
}

abbrev hops : List (ℕ × ℕ)
hops = (5000, 6000) ∷ (5000, 9000) ∷ []

abbrev slow : ProbeSpec
slow = record { id = "updater-health"; label = "Updater HTTP health"; run = resolves 7500 verdict }

abbrev specs : List ProbeSpec
specs =
    record { id = "podman"; label = "Container runtime"; run = hangs }
    ∷ record { id = "dbus"; label = "DBus"; run = rejects 3 "EACCES" }
    ∷ slow
    ∷ []

budget_heard_example : run_with_timeout digits slow (probe_timeout_ms number none) ≡ verdict
unfolding probe_timeout_ms start_probe_deadline run_hops hop remaining
budget_heard_example = budget_heard digits number none hops slow verdict refl
