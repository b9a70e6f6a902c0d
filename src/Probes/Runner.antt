-- ===== src/Probes/Runner.antt =====
-- src/probes/runner.ts: every probe in its own race against the ceiling. What a probe does is an
-- argument; the clock is its time in the race.
mod Examples
pub mod Honest
use signalk_doctor_server.Common.{ℕ, suc, List, [], ◌∷◌, String, ◌^^◌, if◌then◌else◌, ltb}

pub data ProbeStatus : Type 0 where
  ok warn fail unknown : ProbeStatus

pub record ProbeResult : Type 0 where
  pub id : String
  pub label : String
  pub status : ProbeStatus
  pub message : String
  pub duration_ms : ℕ

-- What `run()` does: it resolves or rejects after a time, or never settles.
pub data Behaviour : Type 0 where
  resolves : ℕ → ProbeResult → Behaviour
  rejects : ℕ → String → Behaviour
  hangs : Behaviour

pub record ProbeSpec : Type 0 where
  pub id : String
  pub label : String
  pub run : Behaviour

abbrev pub degraded : ProbeSpec → String → ℕ → ProbeResult
degraded spec message duration_ms = record {
  id = spec.id;
  label = spec.label;
  status = unknown;
  message = message;
  duration_ms = duration_ms;
}

module _ (decimal : ℕ → String) where
  abbrev timed_out : ProbeSpec → ℕ → ProbeResult
  timed_out spec timeout_ms =
      degraded spec ("probe did not finish within " ^^ decimal timeout_ms ^^ "ms (timed out)")
        timeout_ms

  race : ProbeSpec → ℕ → Behaviour → ProbeResult
  race spec timeout_ms (resolves at result) =
      if ltb at timeout_ms then result else timed_out spec timeout_ms
  race spec timeout_ms (rejects at message) =
      if ltb at timeout_ms then degraded spec message at else timed_out spec timeout_ms
  race spec timeout_ms hangs = timed_out spec timeout_ms

  -- The timer wins a tie.
  unfoldable pub run_with_timeout : ProbeSpec → ℕ → ProbeResult
  unfolding race
  run_with_timeout spec timeout_ms = race spec timeout_ms spec.run

  unfoldable pub run_specs : List ProbeSpec → ℕ → List ProbeResult
  unfolding run_with_timeout
  run_specs [] timeout_ms = []
  run_specs (spec ∷ specs) timeout_ms =
      run_with_timeout spec timeout_ms ∷ run_specs specs timeout_ms

pub record Summary : Type 0 where
  pub ok_count : ℕ
  pub warn_count : ℕ
  pub fail_count : ℕ
  pub unknown_count : ℕ

abbrev pub counted : ProbeStatus → Summary → Summary
counted ok s = record s { ok_count = suc s.ok_count }
counted warn s = record s { warn_count = suc s.warn_count }
counted fail s = record s { fail_count = suc s.fail_count }
counted unknown s = record s { unknown_count = suc s.unknown_count }

-- `for (const r of results) summary[r.status]++`
unfoldable pub summarize : List ProbeResult → Summary → Summary
summarize [] s = s
summarize (r ∷ results) s = summarize results (counted r.status s)

pub record ProbeRun : Type 0 where
  pub results : List ProbeResult
  pub summary : Summary

abbrev pub no_counts : Summary
no_counts = record { ok_count = 0; warn_count = 0; fail_count = 0; unknown_count = 0 }

-- `runAllProbes()` on the registered probes.
unfoldable pub run_all_probes : (ℕ → String) → List ProbeSpec → ℕ → ProbeRun
unfolding run_specs summarize
run_all_probes decimal specs timeout_ms =
    let results = run_specs decimal specs timeout_ms in
    record { results = results; summary = summarize results no_counts }
