-- ===== src/BugReport/Examples.antt =====
-- A run on a host whose home has a blank and a quote in its name.
use signalk_doctor_server.Common.{ℕ, ◌≡◌, refl, inl, true, false, none, some, List, [], ◌∷◌, ◌++◌}
use signalk_doctor_server.Common.Text.{codes, codes_eq, starts}
use signalk_doctor_server.BugReport.Paths.{shell_command, resolve_host_path, ends_in_slash, join}
use signalk_doctor_server.BugReport.Quoting.{blank, shell_words, shell_words-shell_command}
use signalk_doctor_server.BugReport.{
  report, ended, Host, prune_old_reports, generate_bug_report, fresh_candidates, before,
}
use signalk_doctor_server.BugReport.Fresh.{has}
use signalk_doctor_server.BugReport.Newest.{IsNew, kept, generate_bug_report_finds}

abbrev home : List ℕ
home = codes "/home/D'Arcy Smith"

shell_words-shell_command_example :
    shell_words blank (shell_command home home)
    ≡ some (home ∷ codes "bug-report" ∷ codes "--to" ∷ home ∷ [])
shell_words-shell_command_example = shell_words-shell_command home home

abbrev table : List ℕ
table =
    codes
      "1 2 0:3 / / rw\n4 1 0:5 /home/D'Arcy\\040Smith/.local/bin /host-bin rw\n6 1 0:7 /d /data rw"

resolved :
    resolve_host_path (some table) (codes "/host-bin/signalk")
    ≡ some (codes "/home/D'Arcy Smith/.local/bin/signalk")
unfolding resolve_host_path codes_eq starts ends_in_slash
resolved = refl

abbrev tarball : ℕ → List ℕ
tarball n = codes "signalk-bug-report-" ++ (n ∷ codes ".tar.gz")

abbrev files : List (List ℕ)
files =
    tarball b'3' ∷ tarball b'1' ∷ codes "notes" ∷ tarball b'2' ∷ tarball b'4' ∷ tarball b'5' ∷ []

oldest_gone : has (tarball b'1') (prune_old_reports (λ f. false) 4 files) ≡ false
unfolding prune_old_reports starts codes_eq
oldest_gone = refl

abbrev host : Host
host = record {
  bin_mounted = true;
  script_there = true;
  table = some table;
  files = files;
  unlink_fails = λ f. false;
  run = λ args old. (ended (some 0) [], tarball b'6' ∷ old);
  size = λ f. 7;
}

generate_bug_report_finds_example :
    (f : List ℕ) × ((generate_bug_report
        (λ n. [])
        (codes "/host-bin")
        (codes "/data/bug-reports")
        none
        host).0
      ≡ report (join (codes "/data/bug-reports") f) f 7)
    × IsNew
        (kept (λ n. []) (codes "/data/bug-reports") host)
        (tarball b'6' ∷ kept (λ n. []) (codes "/data/bug-reports") host)
        f
    × ((h : List ℕ)
        → IsNew
            (kept (λ n. []) (codes "/data/bug-reports") host)
            (tarball b'6' ∷ kept (λ n. []) (codes "/data/bug-reports") host)
            h
        → before h f ≡ true)
unfolding resolve_host_path codes_eq starts ends_in_slash prune_old_reports
generate_bug_report_finds_example =
    generate_bug_report_finds (λ n. []) (codes "/data/bug-reports") host (codes "/host-bin") none
      (codes "/home/D'Arcy Smith/.local/bin/signalk") (codes "/d/bug-reports") []
      (tarball b'6' ∷ kept (λ n. []) (codes "/data/bug-reports") host) (tarball b'6') refl refl refl
      refl refl ((inl refl, refl), refl)

newest_reported :
    (generate_bug_report (λ n. []) (codes "/host-bin") (codes "/data/bug-reports") none host).0
    ≡ report (codes "/data/bug-reports/signalk-bug-report-6.tar.gz") (tarball b'6') 7
unfolding generate_bug_report fresh_candidates starts codes_eq ends_in_slash
newest_reported = refl
