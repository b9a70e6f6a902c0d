-- ===== src/ReportRoutes/Agreement.antt =====
-- The status that a poll sees and the download that it leads to.
use signalk_doctor_server.Common.{
  ℕ, ◌≡◌, refl, Bool, List, true, false, Option, none, some, String, if◌then◌else◌, All, In, Empty,
}
use signalk_doctor_server.Jobs.{Job, running_job, finished_job, find_running_job, Settled}
use signalk_doctor_server.Jobs.AtMostOne.{Registry, Reachable, outcome_of, settle_recorded}
use signalk_doctor_server.BugReport.{BugReportResult, report, failed}
use signalk_doctor_server.ReportRoutes.{
  is_report, threw_report, ReportJobs, settle_bug_report_job, get_bug_report_job, StatusReply,
  no_job, running, done, errored, Download, missing_job, still_running, run_failed, stream,
  lost_file, sent, download_of, get_download,
}

-- A finished job is done exactly if its run made a report.
abbrev IsTyped : Job BugReportResult → Type 0
IsTyped (running_job t) = Unit
IsTyped (finished_job d t u r) = d ≡ is_report r

abbrev AllTyped : ReportJobs → Type 0
AllTyped jobs = All (λ entry. IsTyped entry.1) jobs

module _ (there : List ℕ → Bool) where
  -- The two routes say the same of a job.
  abbrev pub Agree : StatusReply → Download → Type 0
  Agree no_job missing_job = Unit
  Agree (running t) still_running = Unit
  Agree (done t u f n) (stream p g m) = (there p ≡ true) × (g ≡ f) × (m ≡ n)
  Agree (done t u f n) (lost_file p) = there p ≡ false
  Agree (errored t u reason detail stderr exit) (run_failed r) = r ≡ reason
  Agree _ _ = Empty

  -- What the download does with the result of the run.
  abbrev pub IsServed : BugReportResult → Download → Type 0
  IsServed (report p f n) d = d ≡ (if there p then stream p f n else lost_file p)
  IsServed (failed reason detail stderr exit) d = d ≡ run_failed reason

  -- When the run in flight ends, however it ends, the next download of its job sends the tarball of
  -- that very run where the file exists, or is refused with the reason of its failure, and a POST
  -- starts a new run.
  pub get_download-IsServed :
      (s : Registry BugReportResult) (id : String) (x : Settled BugReportResult) (now : String)
      → Reachable is_report threw_report s
      → In id s.in_flight
      → let jobs = settle_bug_report_job s.jobs id x now in
        IsServed (outcome_of is_report threw_report x) (get_download there id jobs)
        × (find_running_job jobs ≡ none)
  unfolding get_download get_bug_report_job download_of settle_bug_report_job sent
  get_download-IsServed s id x now r i =
      let (idle, t, found) = settle_recorded is_report threw_report s id x now r i in
      (by_result (outcome_of is_report threw_report x) t _ found, idle)
    where
      by_result :
          (y : BugReportResult) (t : String) (o : Option (Job BugReportResult))
          → o ≡ some (finished_job (is_report y) t now y)
          → IsServed y (download_of there o)
      by_result (report p f n) t o e = rw e refl
      by_result (failed reason detail stderr exit) t o e = rw e refl
