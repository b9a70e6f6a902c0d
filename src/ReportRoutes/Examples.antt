-- ===== src/ReportRoutes/Examples.antt =====
-- A run that is in flight and makes a report.
use signalk_doctor_server.Common.{ℕ, Bool, not, List, ◌≡◌, refl, true, none, some, [], ◌∷◌, inl}
use signalk_doctor_server.Common.Text.{codes, codes_eq, trim, strip_i}
use signalk_doctor_server.Common.Maps.{lookup, insert}
use signalk_doctor_server.Jobs.{
  running_job, start_job, find_running_job, find_running_job_id, prune_jobs, resolved_with, thrown,
  settle, finalize,
}
use signalk_doctor_server.Jobs.AtMostOne.{Registry, post, Reachable, initial, after}
use signalk_doctor_server.Auth.{
  no_cache, load_token, cached, extract_token, bearer, after_bearer, require_token,
}
use signalk_doctor_server.Auth.Issued.{bearing}
use signalk_doctor_server.BugReport.{BugReportResult, report, spawn_failed}
use signalk_doctor_server.ReportRoutes.{
  is_report, threw_report, settle_bug_report_job, start_bug_report_job, get_download, accepted,
  post_bug_report, run_failed,
}
use signalk_doctor_server.ReportRoutes.Agreement.{IsServed, get_download-IsServed}

-- Every tarball still exists but the one of an older run.
abbrev kept : List ℕ → Bool
kept path = not (codes_eq path (codes "/d/old"))

abbrev one_running : Registry BugReportResult
one_running = record { jobs = ("a", running_job "t0") ∷ []; in_flight = "a" ∷ [] }

reached : Reachable is_report threw_report one_running
unfolding start_job find_running_job find_running_job_id prune_jobs insert lookup
reached =
    after (record { jobs = []; in_flight = [] }) one_running initial
      (post (record { jobs = []; in_flight = [] }) "a" "t0" refl)

abbrev made : BugReportResult
made = report (codes "/d/x") (codes "x") 7

get_download-IsServed_example :
    IsServed kept made
      (get_download kept "a" (settle_bug_report_job one_running.jobs "a" (resolved_with made) "t1"))
    × (find_running_job (settle_bug_report_job one_running.jobs "a" (resolved_with made) "t1")
        ≡ none)
get_download-IsServed_example =
    get_download-IsServed kept one_running "a" (resolved_with made) "t1" reached (inl refl)

thrown_run :
    get_download kept "a" (settle_bug_report_job one_running.jobs "a" (thrown "x") "t1")
    ≡ run_failed spawn_failed
unfolding get_download settle_bug_report_job settle finalize lookup insert
thrown_run = refl

reuses :
    (post_bug_report "/data/token"
      (λ p. some (codes "abc"))
      (bearing (codes "abc") none)
      "b"
      "t1"
      no_cache
      one_running.jobs).2
    ≡ accepted (record { job_id = "a"; started_at = "t0"; reused = true })
unfolding post_bug_report require_token load_token cached extract_token bearer strip_i after_bearer
    trim codes_eq start_bug_report_job start_job find_running_job find_running_job_id lookup
reuses = refl
