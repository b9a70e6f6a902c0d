-- ===== src/BugReport/Newest.antt =====
-- The tarball that a run reports.
use signalk_doctor_server.Common.{
  ℕ, ◌≡◌, refl, inl, inr, true, false, zero, suc, Option, none, some, List, ◌++◌, All-In,
  Bool-cases,
}
use signalk_doctor_server.Common.Text.{codes}
use signalk_doctor_server.BugReport.Paths.{join, shell_command, resolve_host_path}
use signalk_doctor_server.BugReport.{
  BugReportResult, report, failed, before, list_tarballs, prune_old_reports, SpawnOutcome, ended,
  timed_out, not_spawned, Host, last_of, fresh_candidates, located, nonzero, is_unknown_flag,
  after_run, unresolved, with_paths, generate_bug_report, systemd_run_args,
}
use signalk_doctor_server.BugReport.Fresh.{has}
use signalk_doctor_server.BugReport.Candidates.{
  IsListed, list_tarballs-All, list_tarballs-In, list_tarballs-Sorted, fresh-All, fresh_new,
  fresh-Sorted, fresh-In, last_newest, last_there,
}

-- A tarball that the run left and that was not there when it began.
abbrev pub IsNew : (old after : List (List ℕ)) → List ℕ → Type 0
IsNew old after f = IsListed after f × (has f (list_tarballs (some old)) ≡ false)

-- A report names the newest of the new tarballs.
abbrev pub Reports : List ℕ → (old after : List (List ℕ)) → BugReportResult → Type 0
Reports out_dir old after (failed reason detail stderr exit) = Unit
Reports out_dir old after (report path f size) =
    (path ≡ join out_dir f)
    × IsNew old after f
    × ((g : List ℕ) → IsNew old after g → before g f ≡ true)

module _ (decimal : ℕ → List ℕ) (out_dir : List ℕ) (host : Host) where
  located-Reports :
      (old after : List (List ℕ)) (stderr : List ℕ) (o : Option (List ℕ))
      → last_of (fresh_candidates (list_tarballs (some old)) (list_tarballs (some after))) ≡ o
      → Reports out_dir old after (located out_dir host stderr o)
  unfolding located
  located-Reports old after stderr none e = tt
  located-Reports old after stderr (some f) e =
      let names = list_tarballs (some old) in
      let fs = fresh_candidates names (list_tarballs (some after)) in
      let (i, all) =
        last_newest fs f
          (fresh-Sorted names (list_tarballs (some after)) (list_tarballs-Sorted after)) e in
      (
        refl,
        (
          All-In (IsListed after) fs
              (fresh-All names (IsListed after) (list_tarballs (some after))
                (list_tarballs-All after))
              i,
          All-In (λ f. has f names ≡ false) fs (fresh_new names (list_tarballs (some after))) i,
        ),
        λ g (l, n).
            All-In (λ g. before g f ≡ true) fs all
              (fresh-In names g (list_tarballs (some after)) (list_tarballs-In g after l) n),
      )

  nonzero-Reports :
      (old after : List (List ℕ)) (exit : Option ℕ) (stderr : List ℕ)
      → Reports out_dir old after (nonzero decimal exit stderr)
  unfolding nonzero
  nonzero-Reports old after exit stderr = elim (Bool-cases (is_unknown_flag stderr)) [
    | inl e ↦ rw e tt
    | inr e ↦ rw e tt
  ]

  after_run-Reports :
      (ms : ℕ) (old : List (List ℕ)) (x : SpawnOutcome × List (List ℕ))
      → Reports out_dir old x.1 (after_run decimal out_dir host ms (list_tarballs (some old)) x)
  unfolding after_run
  after_run-Reports ms old (timed_out stderr, after) = tt
  after_run-Reports ms old (not_spawned detail stderr, after) = tt
  after_run-Reports ms old (ended none stderr, after) = nonzero-Reports old after none stderr
  after_run-Reports ms old (ended (some (suc n)) stderr, after) =
      nonzero-Reports old after (some (suc n)) stderr
  after_run-Reports ms old (ended (some zero) stderr, after) =
      located-Reports old after stderr _ refl

  with_paths-Reports :
      (script : List ℕ) (ms : ℕ) (files : List (List ℕ)) (s t : Option (List ℕ))
      → Reports out_dir files
          (with_paths decimal script out_dir host ms files s t).1
          (with_paths decimal script out_dir host ms files s t).0
  unfolding with_paths unresolved
  with_paths-Reports script ms files none t = tt
  with_paths-Reports script ms files (some s) none = tt
  with_paths-Reports script ms files (some s) (some t) = after_run-Reports ms files _

  -- A tarball that is reported lies in the directory after the run, was not there when the child
  -- was started, and no other tarball that came since sorts after it: a file that an earlier run
  -- left behind is never handed out for the new one.
  pub generate_bug_report-Reports :
      (bin : List ℕ) (setting : Option (Option ℕ))
      → Reports out_dir
          (prune_old_reports host.unlink_fails 4 host.files)
          (generate_bug_report decimal bin out_dir setting host).1
          (generate_bug_report decimal bin out_dir setting host).0
  unfolding generate_bug_report
  generate_bug_report-Reports bin setting = elim (Bool-cases host.bin_mounted) [
    | inr e ↦ rw e tt
    | inl e ↦ elim (Bool-cases host.script_there) [
      | inr f ↦ rw (e, f) tt
      | inl f ↦
          rw (e, f) (with_paths-Reports _ _ (prune_old_reports host.unlink_fails 4 host.files) _ _)
    ]
  ]

  -- The files that the child finds.
  abbrev pub kept : List (List ℕ)
  kept = prune_old_reports host.unlink_fails 4 host.files

  -- Where the mounts and the script are there, both paths are resolved, and the child exits with 0
  -- and leaves a tarball that was not there, the newest of the new ones is reported with its path
  -- and size.
  pub generate_bug_report_finds :
      (bin : List ℕ) (setting : Option (Option ℕ)) (s t stderr : List ℕ) (after : List (List ℕ))
      (g : List ℕ)
      → host.bin_mounted ≡ true
      → host.script_there ≡ true
      → resolve_host_path host.table (bin ++ codes "/signalk") ≡ some s
      → resolve_host_path host.table out_dir ≡ some t
      → host.run (systemd_run_args (shell_command s t)) kept ≡ (ended (some 0) stderr, after)
      → IsNew kept after g
      → let r = (generate_bug_report decimal bin out_dir setting host).0 in
        (f : List ℕ) × (r ≡ report (join out_dir f) f (host.size (join out_dir f)))
        × IsNew kept after f
        × ((h : List ℕ) → IsNew kept after h → before h f ≡ true)
  unfolding generate_bug_report with_paths after_run located
  generate_bug_report_finds bin setting s t stderr after g m c rs rt run new =
      let names = list_tarballs (some kept) in
      let fs = fresh_candidates names (list_tarballs (some after)) in
      let (f, e) =
        last_there fs g
          (fresh-In names g (list_tarballs (some after)) (list_tarballs-In g after new.0) new.1) in
      let (p, i, n) = located-Reports kept after stderr (some f) e in
      (f, rw (m, c, rs, rt, run, e) refl, i, n)
