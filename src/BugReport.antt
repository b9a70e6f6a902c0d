-- ===== src/BugReport.antt =====
-- src/bug-report.ts: the run of the host's collector. Texts are code points; the mount table, what
-- the spawned child does and which removals fail are arguments. Durations are left out, and the
-- error output is not cut to its last 100,000 characters.
mod Examples
pub mod Paths
pub mod Quoting
pub mod Specific
pub mod Fresh
pub mod Sorting
pub mod Candidates
pub mod Newest
use signalk_doctor_server.Common.{
  ℕ, zero, suc, ◌-◌, Bool, true, false, ◌&&◌, ◌||◌, not, Option, none, some, List, [], ◌∷◌, ◌++◌,
  if◌then◌else◌, leb, ltb, ◌==◌, any, filter, length, take, drop,
}
use signalk_doctor_server.Common.Text.{codes, codes_eq, starts, contains}
use signalk_doctor_server.BugReport.Paths.{resolve_host_path, join, shell_command}

-- BUG_REPORT_TIMEOUT_MS: `some none` is not a number, or not above 0.
unfoldable pub bug_report_timeout_ms : Option (Option ℕ) → ℕ
bug_report_timeout_ms none = 600000
bug_report_timeout_ms (some none) = 600000
bug_report_timeout_ms (some (some zero)) = 600000
bug_report_timeout_ms (some (some (suc n))) = suc n

abbrev pub retention : ℕ
retention = 5

pub data Reason : Type 0 where
  host_bin_missing host_script_missing host_path_resolution_failed spawn_failed timeout : Reason
  nonzero_exit no_output unsupported_flag : Reason

pub data BugReportResult : Type 0 where
  report : (path filename : List ℕ) (size_bytes : ℕ) → BugReportResult
  failed :
      Reason
      → (detail : List ℕ) → (stderr : Option (List ℕ)) → (exit_code : Option ℕ) → BugReportResult

abbrev ends_with : List ℕ → List ℕ → Bool
ends_with suffix f =
    leb (length suffix) (length f) && codes_eq (drop (length f - length suffix) f) suffix

-- `f.startsWith('signalk-bug-report-') && f.endsWith('.tar.gz')`
abbrev pub is_tarball : List ℕ → Bool
is_tarball f = starts (codes "signalk-bug-report-") f && ends_with (codes ".tar.gz") f

-- The order of `sort()`, by characters.
unfoldable pub before : List ℕ → List ℕ → Bool
before [] t = true
before (c ∷ s) [] = false
before (c ∷ s) (d ∷ t) = let rest = before s t in ltb c d || (c == d && rest)

unfoldable pub place_name : List ℕ → List (List ℕ) → List (List ℕ)
unfolding before
place_name name [] = name ∷ []
place_name name (n ∷ names) =
    let later = place_name name names in if before name n then name ∷ n ∷ names else n ∷ later

unfoldable pub sort_names : List (List ℕ) → List (List ℕ)
unfolding place_name
sort_names [] = []
sort_names (n ∷ names) = place_name n (sort_names names)

-- `listTarballs`: a directory that cannot be read has none.
unfoldable pub list_tarballs : Option (List (List ℕ)) → List (List ℕ)
unfolding sort_names
list_tarballs none = []
list_tarballs (some names) = sort_names (filter is_tarball names)

-- One file system object is gone unless its removal fails.
unfoldable pub remove_all : (List ℕ → Bool) → List (List ℕ) → List (List ℕ) → List (List ℕ)
remove_all fails [] names = names
remove_all fails (old ∷ olds) names =
    remove_all fails olds (if fails old then names else filter (λ n. not (codes_eq n old)) names)

-- The files of the directory after `pruneOldReports`.
unfoldable pub prune_old_reports : (List ℕ → Bool) → ℕ → List (List ℕ) → List (List ℕ)
unfolding remove_all list_tarballs
prune_old_reports fails keep names =
    let tarballs = list_tarballs (some names) in
    if leb (length tarballs) keep
    then names
    else remove_all fails (take (length tarballs - keep) tarballs) names

-- What the child does; an exit without a code, -1 in the source, is `none`.
pub data SpawnOutcome : Type 0 where
  ended : (exit_code : Option ℕ) → (stderr : List ℕ) → SpawnOutcome
  timed_out : (stderr : List ℕ) → SpawnOutcome
  not_spawned : (detail stderr : List ℕ) → SpawnOutcome

unfoldable pub systemd_run_args : List ℕ → List (List ℕ)
systemd_run_args command =
    codes "--user"
    ∷ codes "--pipe"
    ∷ codes "--wait"
    ∷ codes "--collect"
    ∷ codes "--service-type=oneshot"
    ∷ codes "--quiet"
    ∷ codes "--"
    ∷ codes "/bin/sh"
    ∷ codes "-c"
    ∷ command
    ∷ []

-- What a run meets: the mounts, the files before it, the removals that fail, and what the child
-- does with the files that the prune left: its outcome and the files after it.
pub record Host : Type 0 where
  pub bin_mounted : Bool
  pub script_there : Bool
  pub table : Option (List ℕ)
  pub files : List (List ℕ)
  pub unlink_fails : List ℕ → Bool
  pub run : List (List ℕ) → List (List ℕ) → SpawnOutcome × List (List ℕ)
  pub size : List ℕ → ℕ

unfoldable pub last_of : List (List ℕ) → Option (List ℕ)
last_of [] = none
last_of (f ∷ []) = some f
last_of (f ∷ g ∷ fs) = last_of (g ∷ fs)

-- The tarballs that were not there before.
unfoldable pub fresh_candidates : (before after : List (List ℕ)) → List (List ℕ)
fresh_candidates old [] = []
fresh_candidates old (f ∷ fs) =
    let rest = fresh_candidates old fs in if any (codes_eq f) old then rest else f ∷ rest

located : List ℕ → Host → List ℕ → Option (List ℕ) → BugReportResult
located out_dir host stderr none =
    failed no_output
      (codes "no new tarball appeared in " ++ (out_dir ++ codes " after a successful run"))
      (some stderr) none
located out_dir host stderr (some fresh) =
    report (join out_dir fresh) fresh (host.size (join out_dir fresh))

is_unknown_flag : List ℕ → Bool
is_unknown_flag stderr = contains (codes "Unknown bug-report argument: --to") stderr

module _ (decimal : ℕ → List ℕ) where
  exit_text : Option ℕ → List ℕ
  exit_text none = codes "-1"
  exit_text (some n) = decimal n

  nonzero : Option ℕ → List ℕ → BugReportResult
  unfolding is_unknown_flag exit_text
  nonzero exit stderr =
      if is_unknown_flag stderr
      then failed unsupported_flag
          (codes
            "host signalk script is too old to support `bug-report --to`. Run `signalk update` (or POST /api/installer/refresh) to refresh it, then retry.")
          (some stderr) exit
      else failed nonzero_exit (codes "signalk bug-report exited " ++ exit_text exit) (some stderr)
          exit

  after_run : (List ℕ) → Host → ℕ → List (List ℕ) → SpawnOutcome × List (List ℕ) → BugReportResult
  unfolding located last_of fresh_candidates list_tarballs nonzero
  after_run out_dir host ms old (timed_out stderr, after) =
      failed timeout (codes "bug-report did not finish within " ++ (decimal ms ++ codes "ms"))
        (some stderr) none
  after_run out_dir host ms old (not_spawned detail stderr, after) =
      failed spawn_failed detail (some stderr) none
  after_run out_dir host ms old (ended none stderr, after) = nonzero none stderr
  after_run out_dir host ms old (ended (some (suc n)) stderr, after) = nonzero (some (suc n)) stderr
  after_run out_dir host ms old (ended (some zero) stderr, after) =
      located out_dir host stderr (last_of (fresh_candidates old (list_tarballs (some after))))

  unresolved : List ℕ → List ℕ → BugReportResult
  unresolved script out_dir =
      failed host_path_resolution_failed
        (codes "could not resolve host paths from /proc/self/mountinfo for "
          ++ (script
              ++ (codes " and/or "
                  ++ (out_dir
                      ++ codes
                          ". The doctor expects the installer's bind mounts (~/.local/bin → /host-bin and ~/.signalk-doctor → /data). Rerun the bash installer to restore them."))))
        none none

  with_paths :
      List ℕ
      → List ℕ
      → Host
      → ℕ
      → List (List ℕ)
      → Option (List ℕ)
      → Option (List ℕ)
      → BugReportResult × List (List ℕ)
  unfolding after_run unresolved systemd_run_args shell_command list_tarballs
  with_paths script out_dir host ms files none target = (unresolved script out_dir, files)
  with_paths script out_dir host ms files (some s) none = (unresolved script out_dir, files)
  with_paths script out_dir host ms files (some s) (some target) =
      let outcome = host.run (systemd_run_args (shell_command s target)) files in
      (after_run out_dir host ms (list_tarballs (some files)) outcome, outcome.1)

  -- `generateBugReport`, and the files of the directory after it.
  unfoldable pub generate_bug_report :
      (bin out_dir : List ℕ)
      → (setting : Option (Option ℕ)) → Host
      → BugReportResult × List (List ℕ)
  unfolding with_paths prune_old_reports resolve_host_path
  generate_bug_report bin out_dir setting host =
      let script = bin ++ codes "/signalk" in
      if not host.bin_mounted
      then (
        failed host_bin_missing
            (bin
              ++ codes
                  " is not mounted; rerun the bash installer to add the host-bin bind mount, then retry.")
            none none,
        host.files,
      )
      else if not host.script_there
      then (
        failed host_script_missing
            (script
              ++ codes
                  " not found. Run `signalk update` (or POST /api/installer/refresh) to install the host script, then retry.")
            none none,
        host.files,
      )
      else with_paths script out_dir host (bug_report_timeout_ms setting)
          (prune_old_reports host.unlink_fails (retention - 1) host.files)
          (resolve_host_path host.table script) (resolve_host_path host.table out_dir)
