-- ===== src/Mutex/Ownership.antt =====
-- Releasing the lock: whose file a handle may delete, and that a guarded operation always lets go.
use signalk_doctor_server.Common.{
  ◌≡◌, refl, ◌≢◌, false, Option, none, some, String, arith, eq_iff, eq_refl, if◌then◌else◌,
}
use signalk_doctor_server.Mutex.{
  Operation, LockInfo, LockFile, missing, torn, written, Faults, no_faults, Interference, Caller,
  info_for, assumed_holder, MutexHandle, Completion, Disk, with_mutex, busy_error, release,
  nonce_eq,
}

nonce_eq_ne : (m : Option String) (n : String) → m ≢ some n → nonce_eq m (some n) ≡ false
nonce_eq_ne none n h = refl
nonce_eq_ne (some a) n h = ground (arith, eq_iff a n)

-- A handle deletes nothing but the lock that carries its own nonce: where the file it reads is
-- absent, unreadable or another acquisition's lock, the release leaves what the others left.
pub release_foreign :
    (faults : Faults) (others : Interference) (h : MutexHandle) (n : String) (file : LockFile)
    → h.info.nonce ≡ some n
    → ((l : LockInfo) → file ≡ written l → l.nonce ≢ some n)
    → (release faults others h file).1 ≡ (if h.released then file else others file)
unfolding release
release_foreign faults others h n missing e other = ground arith
release_foreign faults others h n torn e other = ground arith
release_foreign faults others h n (written l) e other =
    let not_owned = nonce_eq_ne l.nonce n (other l refl) in ground (arith)

-- `release` is one-shot: the second call changes nothing, whoever holds the lock by then.
pub release_twice :
    (f g : Faults) (p q : Interference) (h : MutexHandle) (file later : LockFile)
    → let h' = (release f p h file).0 in (release g q h' later) ≡ (h', later)
unfolding release
release_twice f g p q h file later = ground arith

module _ {W A : Type 0} where
  -- A guarded operation whose body leaves the lock file alone runs where no lock file is there,
  -- with its own lock on disk, and afterwards there is none again, whether the body returned or
  -- threw; the result is the body's.
  pub with_mutex_runs :
      (c : Caller) (op : Operation) (fn : Disk W → Disk W × Completion A) (d : Disk W)
      → ((x : Disk W) → (fn x).0.lock_file ≡ x.lock_file)
      → d.lock_file ≡ missing
      → let held = record d { lock_file = written (info_for c op) } in
        with_mutex no_faults c op fn d ≡ (record (fn held).0 { lock_file = missing }, (fn held).1)
  unfolding with_mutex
  with_mutex_runs c op fn d keeps none_there =
      ground (arith, keeps (record d { lock_file = written (info_for c op) }), eq_refl c.nonce)

  -- Where a lock file is there, the body does not run: the disk stays as it was, and the caller is
  -- told that another operation is busy.
  pub with_mutex_busy :
      (c : Caller) (op : Operation) (fn : Disk W → Disk W × Completion A) (d : Disk W)
      → d.lock_file ≢ missing
      → (l : LockInfo) × (with_mutex no_faults c op fn d ≡ (d, busy_error l))
  unfolding with_mutex
  with_mutex_busy c op fn d there = busy_at d.lock_file d.rest there
    where
      busy_at :
          (file : LockFile) (r : W)
          → file ≢ missing
          → (l : LockInfo) × (with_mutex no_faults c op fn (record { lock_file = file; rest = r })
              ≡ (record { lock_file = file; rest = r }, busy_error l))
      busy_at missing r h = absurd (h refl)
      busy_at torn r h = (assumed_holder c, refl)
      busy_at (written l) r h = (l, refl)
