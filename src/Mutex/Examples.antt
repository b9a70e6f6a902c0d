-- ===== src/Mutex/Examples.antt =====
-- The lock at concrete inputs.
use signalk_doctor_server.Common.{ℕ, ◌≡◌, ◌≢◌, refl, suc, none, some, true, false}
use signalk_doctor_server.Mutex.{
  restart, recover, self_update, LockInfo, missing, torn, written, Faults, open_exclusive,
  write_lock, no_faults, no_interference, Caller, info_for, MutexHandle, handle, failed,
  acquire_mutex, updater, Completion, Disk, error, release,
}
use signalk_doctor_server.Mutex.Exclusive.{failed_write_blocks}
use signalk_doctor_server.Mutex.Ownership.{release_twice}
use signalk_doctor_server.Mutex.Interleaving.{create, write, here, next, mutual_exclusion}

abbrev caller : Caller
caller = record { now = "2026-01-01T00:00:00.000Z"; pid = 7; nonce = "n1" }

abbrev other_lock : LockInfo
other_lock = record {
  owner = updater;
  operation = self_update;
  started_at = "2026-01-01T00:00:01.000Z";
  pid = none;
  nonce = none;
}

abbrev mine : MutexHandle
mine = record { info = info_for caller recover; released = false }

abbrev disk_full : Faults
disk_full = record {
  open_error = none;
  write_error = some "ENOSPC";
  sync_error = none;
  read_fails = false;
  unlink_fails = false;
}

acquires :
    acquire_mutex no_faults no_interference caller recover missing
    ≡ (written (info_for caller recover), handle mine)
unfolding acquire_mutex
acquires = refl

release_twice_example :
    release no_faults no_interference (record mine { released = true }) (written other_lock)
    ≡ (record mine { released = true }, written other_lock)
unfolding release
release_twice_example =
    release_twice no_faults no_faults no_interference no_interference mine
      (written (info_for caller recover)) (written other_lock)

-- The body counts its runs.
abbrev counted : Disk ℕ → Disk ℕ × Completion ℕ
counted d = (record d { rest = suc d.rest }, error "boom")

-- Process 3 opens and writes.
mutual_exclusion_example : (◌≡◌ {A = ℕ} 3 3) × (written (info_for caller recover) ≢ missing)
unfolding open_exclusive write_lock
mutual_exclusion_example =
    mutual_exclusion missing 3 3
      (next (next here (create 3 (info_for caller recover) torn refl refl))
        (write 3 (info_for caller recover) refl))
      tt tt

failed_write_blocks_example :
    (acquire_mutex disk_full no_interference caller recover missing).1 ≡ failed "ENOSPC"
failed_write_blocks_example =
    (failed_write_blocks disk_full "ENOSPC" caller caller recover restart refl refl).0
