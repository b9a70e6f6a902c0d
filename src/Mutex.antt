-- ===== src/Mutex.antt =====
-- src/mutex.ts: the operation lock shared with the updater. The lock file is a value; what a call
-- to the file system may do wrong is an argument, and so is what other processes do to the file
-- while a call waits.
pub mod Exclusive
pub mod Ownership
pub mod Interleaving
mod Examples
use signalk_doctor_server.Common.{
  ℕ, Bool, true, false, Option, none, some, String, str_eq, if◌then◌else◌,
}

pub data Operation : Type 0 where
  switch rollback self_update hardware_apply recover restart installer_refresh : Operation
  heal_plugin_deps : Operation

pub data Owner : Type 0 where
  updater doctor : Owner

pub record LockInfo : Type 0 where
  pub owner : Owner
  pub operation : Operation
  pub started_at : String
  pub pid : Option ℕ
  pub nonce : Option String

-- The file on disk: no file, a file that is not (yet) a readable lock, or a written lock.
pub data LockFile : Type 0 where
  missing torn : LockFile
  written : LockInfo → LockFile

pub data LockState : Type 0 where
  absent unreadable : LockState
  lock : LockInfo → LockState

-- What the file system does to one call: errors other than ENOENT and EEXIST. A failed sync stands
-- for a failed close, too.
pub record Faults : Type 0 where
  pub open_error : Option String
  pub write_error : Option String
  pub sync_error : Option String
  pub read_fails : Bool
  pub unlink_fails : Bool

abbrev pub no_faults : Faults
no_faults = record {
  open_error = none;
  write_error = none;
  sync_error = none;
  read_fails = false;
  unlink_fails = false;
}

-- What other processes do to the file while a call is waiting.
abbrev pub Interference : Type 0
Interference = LockFile → LockFile

abbrev pub no_interference : Interference
no_interference f = f

unfoldable pub read_lock_state : Faults → LockFile → LockState
read_lock_state faults missing = absent
read_lock_state faults torn = unreadable
read_lock_state faults (written info) = if faults.read_fails then unreadable else lock info

unfoldable pub read_lock : Faults → LockFile → Option LockInfo
unfolding read_lock_state
read_lock faults file = elim (read_lock_state faults file) [ lock info ↦ some info | _ ↦ none ]

-- `open(path, 'wx')`: succeeds only where no file is, and leaves an empty file.
unfoldable pub open_exclusive : LockFile → Option LockFile
open_exclusive missing = some torn
open_exclusive torn = none
open_exclusive (written info) = none

pub data Attempt : Type 0 where
  acquired held : Attempt
  threw : String → Attempt

after_write : Faults → LockInfo → LockFile × Attempt
after_write faults info = elim faults.sync_error [
  | none ↦ (written info, acquired)
  | some e ↦ (written info, threw e)
]

-- The write into the file that was just created, and its sync: a failure leaves the file there.
unfoldable pub write_lock : Faults → LockInfo → LockFile × Attempt
unfolding after_write
write_lock faults info = elim faults.write_error [
  | none ↦ after_write faults info
  | some e ↦ (torn, threw e)
]

create_lock : Faults → LockInfo → LockFile → Option LockFile → LockFile × Attempt
unfolding write_lock
create_lock faults info file none = (file, held)
create_lock faults info file (some _) = write_lock faults info

unfoldable pub try_acquire : Faults → LockInfo → LockFile → LockFile × Attempt
unfolding create_lock open_exclusive
try_acquire faults info file = elim faults.open_error [
  | none ↦ create_lock faults info file (open_exclusive file)
  | some e ↦ (file, threw e)
]

-- What the process supplies: the clock, its pid and a fresh random id.
pub record Caller : Type 0 where
  pub now : String
  pub pid : ℕ
  pub nonce : String

abbrev pub info_for : Caller → Operation → LockInfo
info_for c operation = record {
  owner = doctor;
  operation = operation;
  started_at = c.now;
  pid = some c.pid;
  nonce = some c.nonce;
}

-- "racy read; assume held"
abbrev pub assumed_holder : Caller → LockInfo
assumed_holder c = record {
  owner = doctor;
  operation = recover;
  started_at = c.now;
  pid = none;
  nonce = none;
}

pub record MutexHandle : Type 0 where
  pub info : LockInfo
  pub released : Bool

pub data Acquisition : Type 0 where
  handle : MutexHandle → Acquisition
  busy : LockInfo → Acquisition
  failed : String → Acquisition

after_attempt : Caller → LockInfo → Attempt → Option LockInfo → Acquisition
after_attempt c info acquired seen = handle (record { info = info; released = false })
after_attempt c info held none = busy (assumed_holder c)
after_attempt c info held (some l) = busy l
after_attempt c info (threw e) seen = failed e

-- The file is read again only where the first call found it; `others` happens in between.
wait_for_read : Interference → Attempt → LockFile → LockFile
wait_for_read others held file = others file
wait_for_read others acquired file = file
wait_for_read others (threw e) file = file

unfoldable pub acquire_mutex :
    Faults → Interference → Caller → Operation → LockFile → LockFile × Acquisition
unfolding try_acquire after_attempt wait_for_read read_lock
acquire_mutex faults others c operation file =
    let (file', attempt) = try_acquire faults (info_for c operation) file in
    let file'' = wait_for_read others attempt file' in
    (file'', after_attempt c (info_for c operation) attempt (read_lock faults file''))

abbrev pub nonce_eq : Option String → Option String → Bool
nonce_eq none none = true
nonce_eq (some a) (some b) = str_eq a b
nonce_eq _ _ = false

-- `state.kind !== 'lock' || state.lock.nonce !== info.nonce`, negated
unfoldable pub owns : LockInfo → LockState → Bool
owns info (lock l) = nonce_eq l.nonce info.nonce
owns info absent = false
owns info unreadable = false

unfoldable pub unlink : Faults → LockFile → LockFile
unlink faults file = if faults.unlink_fails then file else missing

-- The handle's `release`; `others` happens between the read and the unlink.
unfoldable pub release : Faults → Interference → MutexHandle → LockFile → MutexHandle × LockFile
unfolding owns read_lock_state unlink
release faults others h file = if h.released then (h, file) else (
  record h { released = true },
  if owns h.info (read_lock_state faults file) then unlink faults (others file) else others file,
)

unfoldable pub force_clear : Faults → LockFile → LockFile
unfolding unlink
force_clear faults file = unlink faults file

pub data Completion (A : Type 0) : Type 0 where
  returned : A → Completion A
  busy_error : LockInfo → Completion A
  error : String → Completion A

-- The world that a guarded operation works on: the lock file and all else.
pub record Disk (W : Type 0) : Type 0 where
  pub lock_file : LockFile
  pub rest : W

module _ {W A : Type 0} where
  run_held :
      Faults → (Disk W → Disk W × Completion A) → MutexHandle → Disk W → Disk W × Completion A
  unfolding release
  run_held faults fn h d =
      let (d', result) = fn d in
      (record d' { lock_file = (release faults no_interference h d'.lock_file).1 }, result)

  guarded : Faults → (Disk W → Disk W × Completion A) → Acquisition → Disk W → Disk W × Completion A
  unfolding run_held
  guarded faults fn (handle h) d = run_held faults fn h d
  guarded faults fn (busy l) d = (d, busy_error l)
  guarded faults fn (failed e) d = (d, error e)

  unfoldable pub with_mutex :
      Faults
      → Caller
      → Operation
      → (Disk W → Disk W × Completion A)
      → Disk W
      → Disk W × Completion A
  unfolding acquire_mutex guarded
  with_mutex faults c operation fn d =
      let (file, acquisition) = acquire_mutex faults no_interference c operation d.lock_file in
      guarded faults fn acquisition (record d { lock_file = file })
