-- ===== src/Drift/Heal/Retention.antt =====
-- When a heal asks for the lock to be kept: exactly while npm may still run.
use signalk_doctor_server.Common.{
  ℕ, ◌≡◌, refl, Bool, true, false, ◌&&◌, Option, none, some, List, [], ◌∷◌, String, arith, ◌==◌,
}
use signalk_doctor_server.Common.Json.{Json}
use signalk_doctor_server.Podman.Exec.{
  ExecResult, success, failure, ExecSuccess, ExecFailure, FailureReason, timeout, unreachable,
  runtime,
}
use signalk_doctor_server.Drift.Types.{DriftReport}
use signalk_doctor_server.Drift.Heal.{
  HealTarget, RunTimes, healed, not_healed, HealDeps, Ran, resolved, rejected, select_heal_targets,
  attribute, run_update, run_data_dir_heal, heal_report, heal_targets, after_update, failed_exec,
  after_lost_exec, after_npm, report_run, fails, outcomes, HealPackageOutcome, explanations_of,
}
use signalk_doctor_server.Drift.Explain.{PackageExplanation}

-- `result !== null && !result.ok && result.lockRetained === true`
abbrev pub retains : Ran → Bool
retains (resolved (healed s)) = false
retains (resolved (not_healed f)) = f.lock_retained
retains (rejected e) = false

abbrev pub is_rejected : Ran → Bool
is_rejected (resolved r) = false
is_rejected (rejected e) = true

abbrev reached : FailureReason → Bool
reached unreachable = false
reached timeout = true
reached runtime = true

-- What the exec of the update says: npm began and could not be proven stopped; npm has exited.
abbrev pub may_run : ExecResult → Bool
may_run (success s) = false
may_run (failure f) = reached f.reason && f.still_running

abbrev pub has_exited : ExecResult → Bool
has_exited (success s) = true
has_exited (failure f) = false

abbrev pub says : (ExecResult → Bool) → Option ExecResult → Bool
says p none = false
says p (some x) = p x

module _ (json_parse : String → Option Json) (first_200 : String → String) (decimal : ℕ → String)
    {W : Type 0} (deps : HealDeps W) (times : RunTimes) where
  -- The exec of `npm update` in this run, where it comes to that.
  unfoldable pub update_result : List HealTarget → W → Option ExecResult
  update_result [] w = none
  update_result (t ∷ ts) w =
      some
        (run_update json_parse first_200 decimal deps times (t ∷ ts)
          (attribute json_parse first_200 decimal deps times (t ∷ ts) w).1).0

  unfoldable pub update_of : Option DriftReport → W → Option ExecResult
  unfolding update_result
  update_of none w = none
  update_of (some report) w = update_result (select_heal_targets report) w

  unfoldable pub update_in : W → Option ExecResult
  unfolding update_of
  update_in w = let (report, w') = deps.load_report w in update_of report w'

  lost_exec-retains :
      (targets : List HealTarget) (es : List (String × PackageExplanation)) (f : ExecFailure)
      (r : Option String × W)
      → let ran = (after_lost_exec json_parse first_200 decimal deps times targets es f r).0 in
        (retains ran ≡ f.still_running) × (is_rejected ran ≡ false)
  unfolding after_lost_exec fails
  lost_exec-retains targets es f (none, w) = (refl, refl)
  lost_exec-retains targets es f (some e, w) = (refl, refl)

  failed_exec-retains :
      (targets : List HealTarget) (es : List (String × PackageExplanation)) (f : ExecFailure)
      (why : FailureReason) (w : W)
      → let ran = (failed_exec json_parse first_200 decimal deps times targets es f why w).0 in
        (retains ran ≡ (reached why && f.still_running)) × (is_rejected ran ≡ false)
  unfolding failed_exec fails
  failed_exec-retains targets es f unreachable w = (refl, refl)
  failed_exec-retains targets es f timeout w = lost_exec-retains targets es f (deps.rescan w)
  failed_exec-retains targets es f runtime w = lost_exec-retains targets es f (deps.rescan w)

  report-retains :
      (targets : List HealTarget) (s : ExecSuccess) (ps : List HealPackageOutcome)
      → retains (report_run json_parse first_200 decimal deps times targets s ps) ≡ false
  unfolding report_run
  report-retains targets s ps = ground arith

  npm-retains :
      (targets : List HealTarget) (es : List (String × PackageExplanation)) (s : ExecSuccess)
      (r : Option String × W)
      → retains (after_npm json_parse first_200 decimal deps times targets es s r).0 ≡ false
  unfolding after_npm
  npm-retains targets es s (none, w) =
      let (after, w') = deps.load_report w in
      report-retains targets s (outcomes targets after (s.exit_code == 0) es)
  npm-retains targets es s (some e, w) = refl

  -- The update's result decides: `retains` is `may_run`, and only a run whose npm exited rejects.
  abbrev Decides : Ran → ExecResult → Type 0
  Decides ran x = (retains ran ≡ may_run x) × (is_rejected ran ≡ true → has_exited x ≡ true)

  after_update-Decides :
      (targets : List HealTarget) (es : List (String × PackageExplanation)) (x : ExecResult) (w : W)
      → Decides (after_update json_parse first_200 decimal deps times targets es (x, w)).0 x
  unfolding after_update
  after_update-Decides targets es (failure f) w =
      let (kept, resolves) = failed_exec-retains targets es f f.reason w in (kept, λ e. cc)
  after_update-Decides targets es (success s) w =
      (npm-retains targets es s (deps.rescan w), λ e. refl)

  targets-Decides :
      (targets : List HealTarget) (w : W)
      → let ran = (heal_targets json_parse first_200 decimal deps times targets w).0 in
        (retains ran ≡ says may_run (update_result targets w))
        × (is_rejected ran ≡ true → says has_exited (update_result targets w) ≡ true)
  unfolding heal_targets update_result
  targets-Decides [] w = (refl, λ e. cc)
  targets-Decides (t ∷ ts) w =
      let attributed = attribute json_parse first_200 decimal deps times (t ∷ ts) w in
      let ran = run_update json_parse first_200 decimal deps times (t ∷ ts) attributed.1 in
      after_update-Decides (t ∷ ts) (explanations_of attributed.0) ran.0 ran.1

  report-Decides :
      (report : Option DriftReport) (w : W)
      → let ran = (heal_report json_parse first_200 decimal deps times report w).0 in
        (retains ran ≡ says may_run (update_of report w))
        × (is_rejected ran ≡ true → says has_exited (update_of report w) ≡ true)
  unfolding heal_report update_of fails
  report-Decides none w = (refl, λ e. cc)
  report-Decides (some report) w = targets-Decides (select_heal_targets report) w

  -- A heal asks for the lock to be kept exactly if it began `npm update` and the exec could not
  -- prove that npm stopped, whether or not the rescan after it throws.
  pub retains-run_data_dir_heal :
      (w : W)
      → retains (run_data_dir_heal json_parse first_200 decimal deps times w).0
        ≡ says may_run (update_in w)
  unfolding run_data_dir_heal update_in
  retains-run_data_dir_heal w = (report-Decides (deps.load_report w).0 (deps.load_report w).1).0

  -- A heal that rejects instead of resolving has seen npm exit.
  pub is_rejected-run_data_dir_heal :
      (w : W)
      → is_rejected (run_data_dir_heal json_parse first_200 decimal deps times w).0 ≡ true
      → says has_exited (update_in w) ≡ true
  unfolding run_data_dir_heal update_in
  is_rejected-run_data_dir_heal w = (report-Decides (deps.load_report w).0 (deps.load_report w).1).1
