-- ===== src/ReportRoutes.antt =====
-- src/bug-report-jobs.ts and src/routes/bug-report.ts: the registry of Jobs over the results of
-- BugReport, and the three routes over it. Times of day are texts; durations are left out.
mod Examples
pub mod Agreement
use signalk_doctor_server.Common.{
  ℕ, Bool, true, false, Option, none, some, List, String, if◌then◌else◌,
}
use signalk_doctor_server.Common.Text.{codes}
use signalk_doctor_server.Common.Maps.{Map, lookup}
use signalk_doctor_server.Auth.{Cache, Files, Headers, Gate, passed, refused, require_token}
use signalk_doctor_server.Jobs.{
  Job, running_job, finished_job, StartResult, Settled, start_job, settle,
}
use signalk_doctor_server.BugReport.{Reason, BugReportResult, report, failed, spawn_failed}

-- `result.ok`
abbrev pub is_report : BugReportResult → Bool
is_report (report path f size) = true
is_report (failed reason detail stderr exit) = false

-- The result of a run that throws.
abbrev pub threw_report : String → BugReportResult
threw_report message = failed spawn_failed (codes message) none none

abbrev pub ReportJobs : Type 0
ReportJobs = Map (Job BugReportResult)

unfoldable pub start_bug_report_job : ReportJobs → String → String → ReportJobs × StartResult
start_bug_report_job jobs id now = start_job jobs id now

-- What follows `generateBugReport(log).then(...)`.
unfoldable pub settle_bug_report_job :
    ReportJobs → String → Settled BugReportResult → String → ReportJobs
settle_bug_report_job jobs id run now = settle is_report threw_report jobs id run now

unfoldable pub get_bug_report_job : String → ReportJobs → Option (Job BugReportResult)
get_bug_report_job id jobs = lookup id jobs

pub data PostReply : Type 0 where
  denied : (code : ℕ) → (error : String) → PostReply
  accepted : StartResult → PostReply

posted : Gate → ReportJobs → String → String → ReportJobs × PostReply
unfolding start_bug_report_job
posted (refused code e) jobs id now = (jobs, denied code e)
posted passed jobs id now =
    let (jobs', started) = start_bug_report_job jobs id now in (jobs', accepted started)

-- POST /api/bug-report, with its preHandler
unfoldable pub post_bug_report :
    (path : String)
    → Files
    → Headers
    → (id now : String) → Cache
    → ReportJobs
    → Cache × ReportJobs × PostReply
unfolding posted
post_bug_report path files h id now cache jobs =
    let (cache', gate) = require_token path files h cache in
    let (jobs', reply) = posted gate jobs id now in (cache', jobs', reply)

-- The fields that a reply takes from a result; `absent` are those that the result does not have.
pub data StatusReply : Type 0 where
  no_job : StatusReply
  running : (started_at : String) → StatusReply
  done : (started_at finished_at : String) → (filename : List ℕ) → (size_bytes : ℕ) → StatusReply
  errored :
      (started_at finished_at : String)
      → Reason
      → (detail : List ℕ) → (stderr : Option (List ℕ)) → (exit_code : Option ℕ) → StatusReply
  absent : StatusReply

filled_stderr : Option (List ℕ) → Option (List ℕ)
filled_stderr none = none
filled_stderr (some List.[]) = none
filled_stderr (some (List.◌∷◌ c s)) = some (List.◌∷◌ c s)

status_of : Option (Job BugReportResult) → StatusReply
unfolding filled_stderr
status_of none = no_job
status_of (some (running_job t)) = running t
status_of (some (finished_job true t u (report path f size))) = done t u f size
status_of (some (finished_job true t u (failed reason detail stderr exit))) = absent
status_of (some (finished_job false t u (report path f size))) = absent
status_of (some (finished_job false t u (failed reason detail stderr exit))) =
    errored t u reason detail (filled_stderr stderr) exit

-- GET /api/bug-report/:jobId
unfoldable pub get_status : String → ReportJobs → StatusReply
unfolding status_of get_bug_report_job
get_status id jobs = status_of (get_bug_report_job id jobs)

pub data Download : Type 0 where
  missing_job still_running no_fields : Download
  run_failed : Reason → Download
  -- The file that is sent, and the headers.
  stream : (path filename : List ℕ) → (content_length : ℕ) → Download
  -- A tarball that was pruned meanwhile: the stream has nothing to open.
  lost_file : (path : List ℕ) → Download

sent : (there : List ℕ → Bool) → (path filename : List ℕ) → (size : ℕ) → Download
sent there path f size = if there path then stream path f size else lost_file path

download_of : (there : List ℕ → Bool) → Option (Job BugReportResult) → Download
unfolding sent
download_of there none = missing_job
download_of there (some (running_job t)) = still_running
download_of there (some (finished_job true t u (report path f size))) = sent there path f size
download_of there (some (finished_job true t u (failed reason detail stderr exit))) = no_fields
download_of there (some (finished_job false t u (report path f size))) = no_fields
download_of there (some (finished_job false t u (failed reason detail stderr exit))) =
    run_failed reason

-- GET /api/bug-report/:jobId/download; `there` says which files still exist.
unfoldable pub get_download : (there : List ℕ → Bool) → String → ReportJobs → Download
unfolding download_of get_bug_report_job
get_download there id jobs = download_of there (get_bug_report_job id jobs)
