-- ===== src/Mutex/Exclusive.antt =====
-- Acquiring the lock: who gets a handle, and what is left on disk.
use signalk_doctor_server.Common.{
  ◌≡◌, refl, ◌≢◌, ◌⊎◌, inl, inr, none, some, String, arith, Option-cases,
}
use signalk_doctor_server.Mutex.{
  Operation, LockInfo, LockFile, missing, torn, written, Faults, no_faults, Interference,
  no_interference, Caller, assumed_holder, busy, failed, acquire_mutex, read_lock, force_clear,
}

-- A lock file that is there, whatever it holds, is never overwritten and never yields a handle:
-- with no error on open, the caller is told who holds it, as the file says after the wait, or is
-- given the assumed holder where the file cannot be read any more.
pub acquire_mutex_held :
    (faults : Faults) (others : Interference) (c : Caller) (op : Operation) (file : LockFile)
    → faults.open_error ≡ none
    → file ≢ missing
    → ((acquire_mutex faults others c op file).0 ≡ others file)
      × (((read_lock faults (others file) ≡ none)
            × ((acquire_mutex faults others c op file).1 ≡ busy (assumed_holder c)))
          ⊎ ((l : LockInfo) × (read_lock faults (others file) ≡ some l)
              × ((acquire_mutex faults others c op file).1 ≡ busy l)))
unfolding acquire_mutex
acquire_mutex_held faults others c op missing e h = absurd (h refl)
acquire_mutex_held faults others c op torn e h =
    elim (Option-cases (read_lock faults (others torn))) [
      | inl p ↦ (ground arith, inl (p, ground arith))
      | inr (l, p) ↦ (ground arith, inr (l, p, ground arith))
    ]
acquire_mutex_held faults others c op (written i) e h =
    elim (Option-cases (read_lock faults (others (written i)))) [
      | inl p ↦ (ground arith, inl (p, ground arith))
      | inr (l, p) ↦ (ground arith, inr (l, p, ground arith))
    ]

-- A write that fails after the exclusive open leaves the empty file behind, though the caller gets
-- the error and no handle: from then on no operation of any caller can take the lock, until
-- somebody force-clears it.
pub failed_write_blocks :
    (faults : Faults) (e : String) (c c' : Caller) (op op' : Operation)
    → faults.open_error ≡ none
    → faults.write_error ≡ some e
    → let (left, result) = acquire_mutex faults no_interference c op missing in
      (result ≡ failed e)
      × (acquire_mutex no_faults no_interference c' op' left ≡ (left, busy (assumed_holder c')))
      × (force_clear no_faults left ≡ missing)
unfolding acquire_mutex force_clear
failed_write_blocks faults e c c' op op' o w = (ground arith, ground arith, ground arith)
