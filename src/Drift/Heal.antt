-- ===== src/Drift/Heal.antt =====
-- src/drift/heal.ts: `npm update` of the plugin tree's drifting copies. The report store, the
-- container exec and the rescan act on a world `W`; the times of a run are an argument.
pub mod Examples
pub mod Outcomes
pub mod Retention
use signalk_doctor_server.Common.{
  ℕ, Bool, true, false, ◌&&◌, Option, none, some, List, [], ◌∷◌, String, ◌^^◌, str_eq,
  if◌then◌else◌, ◌==◌, find, option_bind, map,
}
use signalk_doctor_server.Common.Maps.{lookup, insert}
use signalk_doctor_server.Common.Json.{Json}
use signalk_doctor_server.Podman.Exec.{
  ExecResult, success, failure, ExecSuccess, ExecFailure, FailureReason, timeout, unreachable,
  runtime,
}
use signalk_doctor_server.Drift.Types.{
  DriftClassification, up_to_date, patch, minor, major, prerelease, unknown, DriftLocation,
  DriftPackage, DriftReport,
}
use signalk_doctor_server.Drift.Explain.{
  PackageDependent, PackageExplanation, ExplainResult, explained, not_explained, ContainerExec,
  explain_packages, reason_name,
}

pub record HealTarget : Type 0 where
  pub name : String
  pub from : String
  pub latest : Option String

pub data Outcome : Type 0 where
  updated range_limited unchanged : Outcome

-- Absent optional fields are empty lists and `false`.
pub record HealPackageOutcome : Type 0 where
  pub name : String
  pub from : String
  pub to : Option String
  pub latest : Option String
  pub outcome : Outcome
  pub held_by : List PackageDependent
  pub held_by_embedded_server : Bool
  pub was_extraneous : Bool

pub record RunTimes : Type 0 where
  pub started_at : String
  pub finished_at : String
  pub duration_ms : ℕ

pub record HealSuccess : Type 0 where
  pub times : RunTimes
  pub targets : List HealTarget
  pub exit_code : Option ℕ
  pub output_tail : String
  pub packages : List HealPackageOutcome

pub data HealFailureReason : Type 0 where
  no_report exec npm : HealFailureReason

pub record HealFailure : Type 0 where
  pub reason : HealFailureReason
  pub detail : String
  pub times : RunTimes
  pub exit_code : Option ℕ
  pub output_tail : Option String
  pub packages : Option (List HealPackageOutcome)
  pub lock_retained : Bool

pub data HealResult : Type 0 where
  healed : HealSuccess → HealResult
  not_healed : HealFailure → HealResult

abbrev pub is_behind : DriftClassification → Bool
is_behind patch = true
is_behind minor = true
is_behind major = true
is_behind up_to_date = false
is_behind prerelease = false
is_behind unknown = false

abbrev target_of : DriftPackage → DriftLocation → HealTarget
target_of p copy = record { name = p.name; from = copy.installed; latest = p.latest }

-- The copy of a package that is to be healed.
abbrev pub drifting_copy : DriftPackage → Option DriftLocation
drifting_copy p = elim p.data_dir [
  | none ↦ none
  | some copy ↦ if is_behind copy.classification then some copy else none
]

prepend_target : DriftPackage → Option DriftLocation → List HealTarget → List HealTarget
prepend_target p none targets = targets
prepend_target p (some copy) targets = target_of p copy ∷ targets

unfoldable pub select_from : List DriftPackage → List HealTarget
unfolding prepend_target
select_from [] = []
select_from (p ∷ rest) = prepend_target p (drifting_copy p) (select_from rest)

unfoldable pub select_heal_targets : DriftReport → List HealTarget
unfolding select_from
select_heal_targets report = select_from report.packages

unfoldable pub find_package : Option DriftReport → String → Option DriftPackage
find_package report name = option_bind report (λ r. find (λ p. str_eq p.name name) r.packages)

abbrev held_by : Option PackageExplanation → List PackageDependent
held_by none = []
held_by (some e) = e.dependents

has_any : List PackageDependent → Bool
has_any [] = false
has_any (d ∷ ds) = true

held_by_server : Option PackageExplanation → Bool
unfolding has_any
held_by_server none = false
held_by_server (some e) = has_any e.dependents && e.held_by_embedded_server

abbrev swept : Option PackageExplanation → Bool
swept none = false
swept (some e) = e.extraneous

-- An entry that did not move carries who holds it back.
abbrev unmoved :
    HealTarget
    → Option String
    → Option String
    → Outcome
    → Option PackageExplanation
    → HealPackageOutcome
unmoved t to latest outcome e = record {
  name = t.name;
  from = t.from;
  to = to;
  latest = latest;
  outcome = outcome;
  held_by = held_by e;
  held_by_embedded_server = held_by_server e;
  was_extraneous = swept e;
}

abbrev moved :
    HealTarget → Option String → Option String → Option PackageExplanation → HealPackageOutcome
moved t to latest e = record {
  name = t.name;
  from = t.from;
  to = to;
  latest = latest;
  outcome = updated;
  held_by = [];
  held_by_embedded_server = false;
  was_extraneous = swept e;
}

abbrev or_else : Option String → Option String → Option String
or_else (some a) b = some a
or_else none b = b

outcome_at :
    HealTarget
    → Bool
    → Option PackageExplanation
    → Option String
    → Option DriftLocation
    → HealPackageOutcome
outcome_at t npm_succeeded e latest none = moved t none latest e
outcome_at t npm_succeeded e latest (some copy) =
    if str_eq copy.installed t.from
    then unmoved t (some copy.installed) latest
        (if npm_succeeded && is_behind copy.classification then range_limited else unchanged) e
    else moved t (some copy.installed) latest e

outcome_of :
    HealTarget → Bool → Option PackageExplanation → Option DriftPackage → HealPackageOutcome
unfolding outcome_at held_by_server
outcome_of t npm_succeeded e none = unmoved t (some t.from) t.latest unchanged e
outcome_of t npm_succeeded e (some pkg) =
    outcome_at t npm_succeeded e (or_else pkg.latest t.latest) pkg.data_dir

unfoldable pub outcome_for :
    HealTarget → Option DriftReport → Bool → Option PackageExplanation → HealPackageOutcome
unfolding outcome_of find_package
outcome_for t after npm_succeeded e = outcome_of t npm_succeeded e (find_package after t.name)

-- What the engine works with; `rescan` may throw.
pub record HealDeps (W : Type 0) : Type 0 where
  pub load_report : W → Option DriftReport × W
  pub exec : ContainerExec W
  pub rescan : W → Option String × W

pub data Ran : Type 0 where
  resolved : HealResult → Ran
  rejected : String → Ran

pub by_name :
    List PackageExplanation
    → List (String × PackageExplanation)
    → List (String × PackageExplanation)
by_name [] m = m
by_name (e ∷ rest) m = by_name rest (insert e.name e m)

abbrev explanations_of : ExplainResult → List (String × PackageExplanation)
explanations_of (explained es) = by_name es []
explanations_of (not_explained d) = []

unfoldable pub outcomes :
    List HealTarget
    → Option DriftReport
    → Bool
    → List (String × PackageExplanation)
    → List HealPackageOutcome
unfolding outcome_for
outcomes targets after npm_succeeded explanations =
    map (λ t. outcome_for t after npm_succeeded (lookup t.name explanations)) targets

abbrev names : List HealTarget → List String
names = map λ t. t.name

abbrev update_command : List HealTarget → List String
update_command targets =
    "npm" ∷ "update" ∷ "--no-audit" ∷ "--no-fund" ∷ "--loglevel" ∷ "warn" ∷ names targets

module _ (json_parse : String → Option Json) (first_200 : String → String) (decimal : ℕ → String)
    {W : Type 0} (deps : HealDeps W) (times : RunTimes) where
  fails : HealFailureReason → String → Option (List HealPackageOutcome) → Bool → Ran
  fails reason detail packages lock_retained = resolved (
      not_healed (record {
        reason = reason;
        detail = detail;
        times = times;
        exit_code = none;
        output_tail = none;
        packages = packages;
        lock_retained = lock_retained;
      }))

  -- The exec failed after npm may have begun: rescan if that works, and report the failure anyway.
  after_lost_exec :
      List HealTarget
      → List (String × PackageExplanation)
      → ExecFailure
      → Option String × W
      → Ran × W
  unfolding fails
  after_lost_exec targets es f (some thrown, w) =
      (fails exec (reason_name f.reason ^^ ": " ^^ f.detail) none f.still_running, w)
  after_lost_exec targets es f (none, w) =
      let (after, w') = deps.load_report w in
      (
        fails exec (reason_name f.reason ^^ ": " ^^ f.detail)
            (some (outcomes targets after false es)) f.still_running,
        w',
      )

  failed_exec :
      List HealTarget
      → List (String × PackageExplanation)
      → ExecFailure
      → FailureReason
      → W
      → Ran × W
  unfolding after_lost_exec fails
  failed_exec targets es f unreachable w =
      (fails exec (reason_name f.reason ^^ ": " ^^ f.detail) none false, w)
  failed_exec targets es f timeout w = after_lost_exec targets es f (deps.rescan w)
  failed_exec targets es f runtime w = after_lost_exec targets es f (deps.rescan w)

  report_run : List HealTarget → ExecSuccess → List HealPackageOutcome → Ran
  report_run targets s packages =
      if s.exit_code == 0
      then resolved (
          healed (record {
            times = times;
            targets = targets;
            exit_code = some s.exit_code;
            output_tail = s.output;
            packages = packages;
          }))
      else resolved (
          not_healed (record {
            reason = npm;
            detail = "npm update exited with code " ^^ decimal s.exit_code;
            times = times;
            exit_code = some s.exit_code;
            output_tail = some s.output;
            packages = some packages;
            lock_retained = false;
          }))

  -- npm ran to its end: a rescan that throws rejects the whole run.
  after_npm :
      List HealTarget
      → List (String × PackageExplanation)
      → ExecSuccess
      → Option String × W
      → Ran × W
  unfolding report_run
  after_npm targets es s (some thrown, w) = (rejected thrown, w)
  after_npm targets es s (none, w) =
      let (after, w') = deps.load_report w in
      (report_run targets s (outcomes targets after (s.exit_code == 0) es), w')

  after_update : List HealTarget → List (String × PackageExplanation) → ExecResult × W → Ran × W
  unfolding failed_exec after_npm
  after_update targets es (failure f, w) = failed_exec targets es f f.reason w
  after_update targets es (success s, w) = after_npm targets es s (deps.rescan w)

  -- The world before the update, with the attributions, and the update's own result.
  unfoldable pub attribute : List HealTarget → W → ExplainResult × W
  attribute targets w = explain_packages json_parse first_200 decimal deps.exec (names targets) w

  unfoldable pub run_update : List HealTarget → W → ExecResult × W
  run_update targets w = deps.exec (update_command targets) false w

  heal_targets : List HealTarget → W → Ran × W
  unfolding attribute run_update after_update
  heal_targets [] w = (
    resolved (
        healed (record {
          times = times;
          targets = [];
          exit_code = none;
          output_tail = "";
          packages = [];
        })),
    w,
  )
  heal_targets (t ∷ ts) w =
      let (result, w') = attribute (t ∷ ts) w in
      after_update (t ∷ ts) (explanations_of result) (run_update (t ∷ ts) w')

  heal_report : Option DriftReport → W → Ran × W
  unfolding heal_targets fails
  heal_report none w =
      (fails no_report "no drift report yet — run a scan from the Drift tab first" none false, w)
  heal_report (some report) w = heal_targets (select_heal_targets report) w

  unfoldable pub run_data_dir_heal : W → Ran × W
  unfolding heal_report
  run_data_dir_heal w = let (report, w') = deps.load_report w in heal_report report w'
