-- ===== src/Routes.antt =====
-- src/routes/recover.ts, installer.ts and restart.ts: the POST handlers that need the token and run
-- under the operation lock. The three parts of the host they change are one world.
mod Examples
pub mod Guarded
use signalk_doctor_server.Common.{ℕ, Option, none, some, List, [], ◌∷◌, ◌++◌, String, ◌^^◌}
use signalk_doctor_server.Mutex.{
  Operation, recover, restart, installer_refresh, LockInfo, Faults, Caller, Completion, returned,
  busy_error, error, Disk, with_mutex,
}
use signalk_doctor_server.Drift.HealRoute.{owner_name, operation_name}
use signalk_doctor_server.Recovery
use signalk_doctor_server.Recovery.{RecoverResult, LastGood, recover_all, recover_one}
use signalk_doctor_server.Installer
use signalk_doctor_server.Installer.{RefreshSummary, Ended, raised, refresh_installer}
use signalk_doctor_server.Auth.{Cache, Files, Headers, Gate, passed, refused, require_token}

-- POST /api/recover, /api/recover/updater, /api/installer/refresh and /api/restart/signalk-server
pub data Route : Type 0 where
  recover_quadlets recover_updater refresh restart_server : Route

pub record World : Type 0 where
  pub quadlets : Recovery.Machine
  pub artifacts : Installer.Machine
  -- The units that systemd was told to restart.
  pub restarts : List String

-- What the parts meet: the faults of a recovery and the last good entries, the pages and the clock
-- of a refresh, and the error of a restart.
pub record Meets : Type 0 where
  pub recovery : Recovery.Faults
  pub last_good : Option LastGood
  pub pages : Installer.Env
  pub started_at : String
  pub finished_at : String
  pub restart_error : Option String

pub data Answer : Type 0 where
  recovered : RecoverResult → Answer
  refreshed : RefreshSummary → Answer
  restarted : (unit : String) → Answer

abbrev pub signalk_server_unit : String
signalk_server_unit = "signalk-server.service"

abbrev pub operation_of : Route → Operation
operation_of recover_quadlets = recover
operation_of recover_updater = recover
operation_of refresh = installer_refresh
operation_of restart_server = restart

after_recovery : Disk World → Recovery.Machine × RecoverResult → Disk World × Completion Answer
after_recovery d (m, r) =
    (record d { rest = record d.rest { quadlets = m } }, returned (recovered r))

summary_of : Ended RefreshSummary → Completion Answer
summary_of (Installer.returned s) = returned (refreshed s)
summary_of (raised e) = error e

after_refresh :
    Disk World → Installer.Machine × Ended RefreshSummary → Disk World × Completion Answer
unfolding summary_of
after_refresh d (m, r) = (record d { rest = record d.rest { artifacts = m } }, summary_of r)

restart_of : Option String → Completion Answer
restart_of none = returned (restarted signalk_server_unit)
restart_of (some e) = error e

-- What each handler runs under the lock.
unfoldable pub run_route : Meets → Route → Disk World → Disk World × Completion Answer
unfolding after_recovery after_refresh restart_of
run_route x recover_quadlets d =
    after_recovery d (recover_all x.recovery x.last_good d.rest.quadlets)
run_route x recover_updater d =
    after_recovery d
      (recover_one x.recovery x.last_good "signalk-updater-server.container" d.rest.quadlets)
run_route x refresh d =
    after_refresh d (refresh_installer x.pages x.started_at x.finished_at d.rest.artifacts)
run_route x restart_server d = (
  record d { rest = record d.rest { restarts = d.rest.restarts ++ signalk_server_unit ∷ [] } },
  restart_of x.restart_error,
)

pub data Reply : Type 0 where
  denied : (code : ℕ) → (error : String) → Reply
  ok : Answer → Reply
  conflict : (error : String) → LockInfo → (hint : Option String) → Reply
  internal : (error : String) → Reply

abbrev pub busy_message : LockInfo → String
busy_message l =
    "operation lock held by "
    ^^ owner_name l.owner
    ^^ "/"
    ^^ operation_name l.operation
    ^^ " since "
    ^^ l.started_at

abbrev pub busy_hint : Route → LockInfo → Option String
busy_hint restart_server l = some (
    "Another operation ("
    ^^ owner_name l.owner
    ^^ "/"
    ^^ operation_name l.operation
    ^^ ") holds the lock. Wait for it to finish, or force-clear the operation lock if it is stale, then retry.")
busy_hint recover_quadlets l = none
busy_hint recover_updater l = none
busy_hint refresh l = none

-- The restart keeps the message of systemd from the client.
abbrev pub error_text : Route → String → String
error_text restart_server e = "failed to restart " ^^ signalk_server_unit
error_text recover_quadlets e = e
error_text recover_updater e = e
error_text refresh e = e

-- The `catch` of the handlers.
unfoldable pub reply_of : Route → Completion Answer → Reply
reply_of route (returned a) = ok a
reply_of route (busy_error l) = conflict (busy_message l) l (busy_hint route l)
reply_of route (error e) = internal (error_text route e)

locked : Faults → Caller → Meets → Route → Disk World → Disk World × Reply
locked faults c x route d =
    let (d', result) = with_mutex faults c (operation_of route) (run_route x route) d in
    (d', reply_of route result)

gated : Faults → Caller → Meets → Route → Disk World → Gate → Disk World × Reply
unfolding locked
gated faults c x route d passed = locked faults c x route d
gated faults c x route d (refused code e) = (d, denied code e)

-- A request, with its preHandler.
unfoldable pub post_route :
    Faults
    → Caller
    → Meets
    → (path : String) → Files
    → Headers
    → Route
    → Cache
    → Disk World
    → Cache × Disk World × Reply
unfolding gated
post_route faults c x path files h route cache d =
    let (cache', gate) = require_token path files h cache in
    let (d', reply) = gated faults c x route d gate in (cache', d', reply)

-- The status of a reply.
abbrev pub status : Reply → ℕ
status (denied code e) = code
status (ok a) = 200
status (conflict e l hint) = 409
status (internal e) = 500
