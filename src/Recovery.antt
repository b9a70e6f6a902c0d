-- ===== src/Recovery.antt =====
-- src/recovery/restore.ts: every quadlet back to its last known good state. The quadlets and the
-- snapshots are maps from names and paths to contents; what the file system and systemd do is an
-- argument. The temporary file of a restore is left out.
mod Examples
pub mod Outcome
pub mod Files
pub mod One
pub mod Verdict
use signalk_doctor_server.Common.{
  Bool, true, false, Option, none, some, List, [], ◌∷◌, ◌++◌, String, str_eq, ◌^^◌, if◌then◌else◌,
  any,
}
use signalk_doctor_server.Common.Maps.{Map, lookup, insert}

-- An entry of `last-good.json`, from src/quadlet/rewriter.ts.
pub record Entry : Type 0 where
  pub tag : String
  pub image : String
  pub snapshot_path : String

pub record LastGood : Type 0 where
  pub updated_at : String
  pub quadlets : Map Entry

pub record Restored : Type 0 where
  pub quadlet : String
  pub from : String
  pub to_tag : String

pub record RecoverResult : Type 0 where
  pub ok : Bool
  pub restored : List Restored
  pub errors : List String

-- How the system calls of one restore end: all work, the copy or the rename fails, or the sync of
-- the directory after the rename fails.
pub data Fault : Type 0 where
  no_fault : Fault
  before_rename after_rename : String → Fault

-- The files, and the calls of systemd that were made.
pub record Machine : Type 0 where
  pub quadlets : Map String
  pub snapshots : Map String
  pub calls : List String

-- What may go wrong: in each restore, with each missing snapshot, in the reload and in each restart.
pub record Faults : Type 0 where
  pub restore : String → Fault
  pub no_snapshot : String → String
  pub reload : Option String
  pub restart : String → Option String

unfoldable pub unit_of : String → Option String
unit_of quadlet =
    if str_eq quadlet "signalk-server.container"
    then some "signalk-server.service"
    else if str_eq quadlet "signalk-updater-server.container"
    then some "signalk-updater-server.service"
    else if str_eq quadlet "signalk-doctor-server.container"
    then some "signalk-doctor-server.service"
    else none

copied : Fault → String → String → Machine → Machine × Option String
copied no_fault quadlet body m = (record m { quadlets = insert quadlet body m.quadlets }, none)
copied (before_rename e) quadlet body m = (m, some e)
copied (after_rename e) quadlet body m =
    (record m { quadlets = insert quadlet body m.quadlets }, some e)

read_snapshot : Faults → String → String → Option String → Machine → Machine × Option String
unfolding copied
read_snapshot faults quadlet path none m = (m, some (faults.no_snapshot path))
read_snapshot faults quadlet path (some body) m = copied (faults.restore quadlet) quadlet body m

-- `restoreOne`; the text is the error that it throws.
unfoldable pub restore_one : Faults → String → String → Machine → Machine × Option String
unfolding read_snapshot
restore_one faults quadlet path m = read_snapshot faults quadlet path (lookup path m.snapshots) m

-- `Set.add`
add_unit : Option String → List String → List String
add_unit none units = units
add_unit (some unit) units = if any (str_eq unit) units then units else units ++ unit ∷ []

-- The state of the loop: the machine, the result so far, and the units to restart.
pub record Progress : Type 0 where
  pub machine : Machine
  pub result : RecoverResult
  pub units : List String

pub after_restore : String → Entry → Progress → Machine × Option String → Progress
unfolding add_unit unit_of
after_restore quadlet entry p (m, none) = record {
  machine = m;
  result = record p.result {
    restored =
        p.result.restored
        ++ record { quadlet = quadlet; from = entry.snapshot_path; to_tag = entry.tag } ∷ [];
  };
  units = add_unit (unit_of quadlet) p.units;
}
after_restore quadlet entry p (m, some e) = record {
  machine = m;
  result = record p.result { ok = false; errors = p.result.errors ++ (quadlet ^^ ": " ^^ e) ∷ [] };
  units = p.units;
}

unfoldable pub restore_all : Faults → Map Entry → Progress → Progress
unfolding after_restore restore_one
restore_all faults [] p = p
restore_all faults ((quadlet, entry) ∷ rest) p =
    restore_all faults rest
      (after_restore quadlet entry p (restore_one faults quadlet entry.snapshot_path p.machine))

abbrev pub with_error : String → RecoverResult → RecoverResult
with_error e r = record r { ok = false; errors = r.errors ++ e ∷ [] }

abbrev pub call : String → Machine → Machine
call name m = record m { calls = m.calls ++ name ∷ [] }

restarted : String → Option String → RecoverResult → RecoverResult
restarted unit none r = r
restarted unit (some e) r = with_error ("restart " ^^ unit ^^ ": " ^^ e) r

unfoldable pub restart_all :
    Faults → List String → Machine → RecoverResult → Machine × RecoverResult
unfolding restarted
restart_all faults [] m r = (m, r)
restart_all faults (unit ∷ units) m r =
    restart_all faults units (call unit m) (restarted unit (faults.restart unit) r)

reloaded : Faults → Option String → List String → Machine → RecoverResult → Machine × RecoverResult
unfolding restart_all
reloaded faults none units m r = restart_all faults units m r
reloaded faults (some e) units m r = (m, with_error ("daemon-reload: " ^^ e) r)

finish : Faults → Progress → List Restored → Machine × RecoverResult
unfolding reloaded
finish faults p [] = (p.machine, record p.result { ok = false })
finish faults p (r ∷ rs) =
    reloaded faults faults.reload p.units (call "daemon-reload" p.machine) p.result

abbrev pub no_result : RecoverResult
no_result = record { ok = true; restored = []; errors = [] }

abbrev pub nothing_to_restore : RecoverResult
nothing_to_restore = with_error "no last-known-good entries on disk; nothing to restore" no_result

entries : Faults → Map Entry → Machine → Machine × RecoverResult
unfolding restore_all finish
entries faults [] m = (m, nothing_to_restore)
entries faults (entry ∷ rest) m =
    let p =
      restore_all faults (entry ∷ rest) (record { machine = m; result = no_result; units = [] }) in
    finish faults p p.result.restored

unfoldable pub recover_all : Faults → Option LastGood → Machine → Machine × RecoverResult
unfolding entries
recover_all faults none m = (m, nothing_to_restore)
recover_all faults (some lg) m = entries faults lg.quadlets m

restart_one : Faults → Option String → Machine → RecoverResult → Machine × RecoverResult
unfolding restarted
restart_one faults none m r = (m, r)
restart_one faults (some unit) m r =
    (call unit m, elim (faults.restart unit) [ none ↦ r | some e ↦ with_error e r ])

reload_one :
    Faults → Option String → Option String → Machine → RecoverResult → Machine × RecoverResult
unfolding restart_one
reload_one faults none unit m r = restart_one faults unit m r
reload_one faults (some e) unit m r = (m, with_error e r)

restored_one : Faults → String → Entry → Machine × Option String → Machine × RecoverResult
unfolding reload_one unit_of
restored_one faults quadlet entry (m, some e) = (m, with_error e no_result)
restored_one faults quadlet entry (m, none) =
    reload_one faults faults.reload (unit_of quadlet) (call "daemon-reload" m) (record no_result {
      restored = record { quadlet = quadlet; from = entry.snapshot_path; to_tag = entry.tag } ∷ [];
    })

entry_of : Option LastGood → String → Option Entry
entry_of none quadlet = none
entry_of (some lg) quadlet = lookup quadlet lg.quadlets

one : Faults → String → Option Entry → Machine → Machine × RecoverResult
unfolding restore_one restored_one
one faults quadlet none m = (m, with_error ("no last-known-good entry for " ^^ quadlet) no_result)
one faults quadlet (some entry) m =
    restored_one faults quadlet entry (restore_one faults quadlet entry.snapshot_path m)

-- `recoverOne`: the first error ends it.
unfoldable pub recover_one : Faults → Option LastGood → String → Machine → Machine × RecoverResult
unfolding one entry_of
recover_one faults lg quadlet m = one faults quadlet (entry_of lg quadlet) m
