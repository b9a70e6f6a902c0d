-- ===== src/Installer.antt =====
-- src/installer/refresh.ts: the refresh of the installer's scripts and templates from its pages,
-- and the status of what is there. Files are maps from paths to a body and a mode; the pages, the
-- hash and what the file system does are an argument. A short write that
-- reports no error is left out.
mod Examples
pub mod Artifacts
pub mod Told
pub mod Refresh
pub mod Again
use Prim.Native.String
use Prim.Native.Char.{code}
use signalk_doctor_server.Common.{
  ℕ, suc, Bool, true, false, ◌&&◌, not, Option, none, some, List, [], ◌∷◌, String, str_eq, ◌^^◌,
  if◌then◌else◌, ◌==◌, leb, ltb, is_some,
}
use signalk_doctor_server.Common.Strings.{has_char}
use signalk_doctor_server.Common.Maps.{Map, lookup, insert}
use signalk_doctor_server.Installer.Artifacts.{
  ArtifactKind, host_script, quadlet_template, detect_script, ArtifactDescriptor, Settings,
  host_bin_dir, snapshot_dir, pages_base, artifacts,
}

pub data ArtifactStatus : Type 0 where
  updated unchanged mount_missing fetch_failed write_failed : ArtifactStatus

pub record ArtifactResult : Type 0 where
  pub id : String
  pub kind : ArtifactKind
  pub status : ArtifactStatus
  pub sha256 : Option String
  pub snapshot_path : Option String
  pub message : Option String

pub record FileNode : Type 0 where
  pub body : String
  pub mode : ℕ

-- `/host-bin` may not be mounted. The temporary files stand under the paths that they are for.
pub record Machine : Type 0 where
  pub host_bin : Bool
  pub files : Map FileNode
  pub snapshots : Map FileNode
  pub temps : Map FileNode

pub data Fetched : Type 0 where
  got : String → Fetched
  threw : String → Fetched

-- What `fetch` does: it rejects, or answers with a status and a body that may fail to arrive.
pub data Response : Type 0 where
  no_answer : String → Response
  answer : ℕ → Fetched → Response

-- How the copy into the snapshots and the atomic write end. A failed copy may leave something, and
-- so may a failed write of the temporary file.
pub data CopyFault : Type 0 where
  copies : CopyFault
  copy_fails : (left : Option FileNode) → String → CopyFault

pub data WriteFault : Type 0 where
  writes : WriteFault
  before_rename : (left : Option FileNode) → String → WriteFault
  after_rename : String → WriteFault

pub record Env : Type 0 where
  pub settings : Settings
  pub http : String → Response
  pub hash : String → String
  pub decimal : ℕ → String
  pub stamp : String → String
  pub read_fault : String → Option String
  pub copy_fault : String → CopyFault
  pub write_fault : String → WriteFault

-- `res.ok`
abbrev is_ok : ℕ → Bool
is_ok status = leb 200 status && ltb status 300

read_answer : Env → String → Response → Fetched
read_answer env url (no_answer e) = threw e
read_answer env url (answer status body) =
    if is_ok status then body else threw ("fetch " ^^ url ^^ " → HTTP " ^^ env.decimal status)

unfoldable pub fetch_artifact : Env → String → Fetched
unfolding read_answer
fetch_artifact env remote_path =
    let url = pages_base env.settings ^^ "/" ^^ remote_path in read_answer env url (env.http url)

-- `basename` of a path with no slash at its end.
unfoldable pub base_name : String → String
unfolding has_char
base_name String.[] = String.[]
base_name (String.◌∷◌ c s) =
    let later = base_name s in
    if has_char b'/' s then later else if code c == b'/' then s else String.◌∷◌ c s

-- The colons and points of the time stamp are replaced before it comes here.
unfoldable pub snapshot_name : Env → String → String
unfolding base_name
snapshot_name env path = snapshot_dir env.settings ^^ "/" ^^ env.stamp path ^^ "-" ^^ base_name path

-- What an async function ends with.
pub data Ended {ℓ} (A : Type ℓ) : Type ℓ where
  returned : A → Ended A
  raised : String → Ended A

left_behind : String → Option FileNode → Map FileNode → Map FileNode
left_behind path none m = m
left_behind path (some f) m = insert path f m

copy_into : Env → String → FileNode → CopyFault → Machine → Machine × Ended (Option String)
unfolding left_behind
copy_into env path f copies m = (
  record m { snapshots = insert (snapshot_name env path) f m.snapshots },
  returned (some (snapshot_name env path)),
)
copy_into env path f (copy_fails left e) m =
    (record m { snapshots = left_behind (snapshot_name env path) left m.snapshots }, raised e)

snapshot_of : Env → String → Option FileNode → Machine → Machine × Ended (Option String)
unfolding copy_into
snapshot_of env path none m = (m, returned none)
snapshot_of env path (some f) m = copy_into env path f (env.copy_fault path) m

unfoldable pub snapshot_if_exists : Env → String → Machine → Machine × Ended (Option String)
unfolding snapshot_of
snapshot_if_exists env path m = snapshot_of env path (lookup path m.files) m

abbrev pub placed : ArtifactDescriptor → String → Machine → Machine
placed d body m = record m {
  files = insert d.dest_path (record { body = body; mode = d.mode }) m.files;
}

abbrev pub result :
    ArtifactDescriptor
    → ArtifactStatus
    → (sha256 snapshot_path message : Option String) → ArtifactResult
result d status sha256 snapshot_path message = record {
  id = d.id;
  kind = d.kind;
  status = status;
  sha256 = sha256;
  snapshot_path = snapshot_path;
  message = message;
}

-- `writeAtomicWithMode` within its try: the temporary file is written first and may be left behind,
-- then renamed, and the sync of the directory comes last.
written :
    Env
    → ArtifactDescriptor
    → String
    → Option String
    → WriteFault
    → Machine
    → Machine × Ended ArtifactResult
unfolding left_behind
written env d body snap writes m =
    (placed d body m, returned (result d updated (some (env.hash body)) snap none))
written env d body snap (before_rename left e) m = (
  record m { temps = left_behind d.dest_path left m.temps },
  returned (result d write_failed none snap (some e)),
)
written env d body snap (after_rename e) m =
    (placed d body m, returned (result d write_failed none snap (some e)))

after_snapshot :
    Env
    → ArtifactDescriptor
    → String
    → Machine × Ended (Option String)
    → Machine × Ended ArtifactResult
unfolding written
after_snapshot env d body (m, raised e) = (m, raised e)
after_snapshot env d body (m, returned snap) =
    written env d body snap (env.write_fault d.dest_path) m

replace : Env → ArtifactDescriptor → String → Machine → Machine × Ended ArtifactResult
unfolding after_snapshot snapshot_if_exists
replace env d body m = after_snapshot env d body (snapshot_if_exists env d.dest_path m)

-- The file that is there is read outside any try.
compare_with :
    Env
    → ArtifactDescriptor
    → String
    → FileNode
    → Option String
    → Machine
    → Machine × Ended ArtifactResult
unfolding replace
compare_with env d body f (some e) m = (m, raised e)
compare_with env d body f none m =
    if str_eq (env.hash f.body) (env.hash body)
    then (m, returned (result d unchanged (some (env.hash body)) none none))
    else replace env d body m

against :
    Env → ArtifactDescriptor → String → Option FileNode → Machine → Machine × Ended ArtifactResult
unfolding compare_with replace
against env d body none m = replace env d body m
against env d body (some f) m = compare_with env d body f (env.read_fault d.dest_path) m

after_fetch : Env → ArtifactDescriptor → Fetched → Machine → Machine × Ended ArtifactResult
unfolding against
after_fetch env d (threw e) m = (m, returned (result d fetch_failed none none (some e)))
after_fetch env d (got body) m = against env d body (lookup d.dest_path m.files) m

abbrev is_host_script : ArtifactKind → Bool
is_host_script host_script = true
is_host_script quadlet_template = false
is_host_script detect_script = false

abbrev no_mount : Settings → String
no_mount s =
    host_bin_dir s
    ^^ " is not mounted; rerun the bash installer to add the host-bin bind mount, then retry."

unfoldable pub refresh_one : Env → ArtifactDescriptor → Machine → Machine × Ended ArtifactResult
unfolding after_fetch
refresh_one env d m =
    if is_host_script d.kind && not m.host_bin
    then (m, returned (result d mount_missing none none (some (no_mount env.settings))))
    else after_fetch env d (fetch_artifact env d.remote_path) m

cons_result :
    ArtifactResult → Machine × Ended (List ArtifactResult) → Machine × Ended (List ArtifactResult)
cons_result r (m, returned rs) = (m, returned (r ∷ rs))
cons_result r (m, raised e) = (m, raised e)

and_then :
    (Machine → Machine × Ended (List ArtifactResult))
    → Machine × Ended ArtifactResult
    → Machine × Ended (List ArtifactResult)
unfolding cons_result
and_then rest (m, returned r) = cons_result r (rest m)
and_then rest (m, raised e) = (m, raised e)

-- The loop over the table: an error that is raised ends it.
unfoldable pub refresh_all :
    Env → List ArtifactDescriptor → Machine → Machine × Ended (List ArtifactResult)
unfolding and_then
refresh_all env [] m = (m, returned [])
refresh_all env (d ∷ ds) m = and_then (refresh_all env ds) (refresh_one env d m)

pub record Counts : Type 0 where
  pub updated_count : ℕ
  pub unchanged_count : ℕ
  pub mount_missing_count : ℕ
  pub fetch_failed_count : ℕ
  pub write_failed_count : ℕ

abbrev bump : ArtifactStatus → Counts → Counts
bump updated c = record c { updated_count = suc c.updated_count }
bump unchanged c = record c { unchanged_count = suc c.unchanged_count }
bump mount_missing c = record c { mount_missing_count = suc c.mount_missing_count }
bump fetch_failed c = record c { fetch_failed_count = suc c.fetch_failed_count }
bump write_failed c = record c { write_failed_count = suc c.write_failed_count }

-- `for (const r of results) counts[r.status]++`
unfoldable pub count_all : List ArtifactResult → Counts → Counts
count_all [] c = c
count_all (r ∷ rs) c = count_all rs (bump r.status c)

abbrev pub no_counts : Counts
no_counts = record {
  updated_count = 0;
  unchanged_count = 0;
  mount_missing_count = 0;
  fetch_failed_count = 0;
  write_failed_count = 0;
}

pub record RefreshSummary : Type 0 where
  pub started_at : String
  pub finished_at : String
  pub base : String
  pub results : List ArtifactResult
  pub counts : Counts

summarize : Env → String → String → Ended (List ArtifactResult) → Ended RefreshSummary
unfolding count_all
summarize env started finished (raised e) = raised e
summarize env started finished (returned rs) = returned (record {
  started_at = started;
  finished_at = finished;
  base = pages_base env.settings;
  results = rs;
  counts = count_all rs no_counts;
})

unfoldable pub refresh_installer : Env → String → String → Machine → Machine × Ended RefreshSummary
unfolding refresh_all summarize
refresh_installer env started finished m =
    let (after, ended) = refresh_all env (artifacts env.settings) m in
    (after, summarize env started finished ended)

-- One line of the status.
pub record ArtifactState : Type 0 where
  pub id : String
  pub kind : ArtifactKind
  pub dest_path : String
  pub present : Bool
  pub sha256 : Option String
  pub mtime : Option String

-- What `readFile` and `stat` do with the files that are there.
pub record Reads : Type 0 where
  pub unreadable : String → Bool
  pub mtime : String → Option String

hash_and_time : Env → Reads → String → Option FileNode → Option String × Option String
hash_and_time env reads path none = (none, none)
hash_and_time env reads path (some f) =
    if reads.unreadable path then (none, none) else (some (env.hash f.body), reads.mtime path)

abbrev state_of : Env → Reads → Machine → ArtifactDescriptor → ArtifactState
state_of env reads m d =
    let (sha256, mtime) = hash_and_time env reads d.dest_path (lookup d.dest_path m.files) in
    record {
      id = d.id;
      kind = d.kind;
      dest_path = d.dest_path;
      present = is_some (lookup d.dest_path m.files);
      sha256 = sha256;
      mtime = mtime;
    }

states_of : Env → Reads → Machine → List ArtifactDescriptor → List ArtifactState
states_of env reads m [] = []
states_of env reads m (d ∷ ds) = state_of env reads m d ∷ states_of env reads m ds

pub record InstallerStatus : Type 0 where
  pub host_bin_mounted : Bool
  pub base : String
  pub states : List ArtifactState

unfoldable pub read_installer_status : Env → Reads → Machine → InstallerStatus
unfolding states_of hash_and_time
read_installer_status env reads m = record {
  host_bin_mounted = m.host_bin;
  base = pages_base env.settings;
  states = states_of env reads m (artifacts env.settings);
}
