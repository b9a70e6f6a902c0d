-- ===== src/Mutex/Interleaving.antt =====
-- Any number of processes take and release the lock, one system call at a time, in any order.
use signalk_doctor_server.Common.{
  ℕ, ◌≡◌, refl, ◌≢◌, ◌⊎◌, inl, inr, true, false, some, arith, ◌==◌, if◌then◌else◌, Bool-cases, sym,
  ◌∙◌,
}
use signalk_doctor_server.Mutex.{
  LockInfo, LockFile, missing, torn, written, no_faults, open_exclusive, write_lock, owns,
  read_lock_state,
}

-- Where a process stands in `acquireMutex` and `release`.
pub data Phase : Type 0 where
  idle : Phase
  created : LockInfo → Phase  -- its `open(…, 'wx')` succeeded
  holding : LockInfo → Phase  -- its lock is written
  unlinking : LockInfo → Phase  -- it read its own nonce in the file

pub record System : Type 0 where
  pub file : LockFile
  pub phase : ℕ → Phase

abbrev set_phase : ℕ → Phase → (ℕ → Phase) → ℕ → Phase
set_phase i p phases j = if i == j then p else phases j

-- One system call of process `i`. Nobody force-clears the lock.
pub data Step (s : System) : System → Type 0 where
  create :
      (i : ℕ) (info : LockInfo) (file : LockFile)
      → s.phase i ≡ idle
      → open_exclusive s.file ≡ some file
      → Step s (record { file = file; phase = set_phase i (created info) s.phase })
  write :
      (i : ℕ) (info : LockInfo)
      → s.phase i ≡ created info
      → Step s (record {
        file = (write_lock no_faults info).0;
        phase = set_phase i (holding info) s.phase;
      })
  check_own :
      (i : ℕ) (info : LockInfo)
      → s.phase i ≡ holding info
      → owns info (read_lock_state no_faults s.file) ≡ true
      → Step s (record { file = s.file; phase = set_phase i (unlinking info) s.phase })
  forgo :
      (i : ℕ) (info : LockInfo)
      → s.phase i ≡ holding info
      → owns info (read_lock_state no_faults s.file) ≡ false
      → Step s (record { file = s.file; phase = set_phase i idle s.phase })
  remove :
      (i : ℕ) (info : LockInfo)
      → s.phase i ≡ unlinking info
      → Step s (record { file = missing; phase = set_phase i idle s.phase })

pub data Reach (s : System) : System → Type 0 where
  here : Reach s s
  next : {t u : System} → Reach s t → Step t u → Reach s u

-- The process is between its successful open and its unlink.
abbrev pub IsInside : Phase → Type 0
IsInside idle = ⊥
IsInside _ = Unit

pub record Inv (s : System) : Type 0 where
  pub exclusive : (i j : ℕ) → IsInside (s.phase i) → IsInside (s.phase j) → i ≡ j
  pub guarded : (i : ℕ) → IsInside (s.phase i) → s.file ≢ missing

IsInside-set_phase :
    (i j : ℕ) (p : Phase) (phases : ℕ → Phase)
    → IsInside (set_phase i p phases j)
    → (i ≡ j) ⊎ IsInside (phases j)
IsInside-set_phase i j p phases h = elim (Bool-cases (i == j)) [
  | inl same ↦ inl (ground arith)
  | inr other ↦ inr (rw other at h)
]

open_exclusive_missing : (f g : LockFile) → open_exclusive f ≡ some g → f ≡ missing
unfolding open_exclusive
open_exclusive_missing missing g e = refl
open_exclusive_missing torn g e = cc
open_exclusive_missing (written l) g e = cc

open_exclusive_there : (f g : LockFile) → open_exclusive f ≡ some g → g ≢ missing
unfolding open_exclusive
open_exclusive_there missing g e p = ground arith
open_exclusive_there torn g e p = cc
open_exclusive_there (written l) g e p = cc

-- A system in which only process `i` can be inside, and a lock file is there.
sole-Inv :
    (i : ℕ) (t : System) → ((j : ℕ) → IsInside (t.phase j) → i ≡ j) → t.file ≢ missing → Inv t
sole-Inv i t sole there = record {
  exclusive = λ j k hj hk. sym (sole j hj) ∙ sole k hk;
  guarded = λ j _. there;
}

-- Process `i` moves on while it is inside.
moves-Inv :
    (s : System) (i : ℕ) (p : Phase) (file : LockFile)
    → Inv s
    → IsInside (s.phase i)
    → file ≢ missing
    → Inv (record { file = file; phase = set_phase i p s.phase })
moves-Inv s i p file v inside = sole-Inv i _ λ j hj. elim (IsInside-set_phase i j p s.phase hj) [
  | inl same ↦ same
  | inr was ↦ v.exclusive i j inside was
]

created-IsInside : (p : Phase) (info : LockInfo) → p ≡ created info → IsInside p
created-IsInside p info e = rw e tt

holding-IsInside : (p : Phase) (info : LockInfo) → p ≡ holding info → IsInside p
holding-IsInside p info e = rw e tt

unlinking-IsInside : (p : Phase) (info : LockInfo) → p ≡ unlinking info → IsInside p
unlinking-IsInside p info e = rw e tt

-- When the only process inside leaves, nobody is inside.
leaves :
    (s : System) (i j : ℕ) → Inv s → IsInside (s.phase i) → ¬ IsInside (set_phase i idle s.phase j)
leaves s i j v inside h = elim (Bool-cases (i == j)) [
  | inl same ↦ rw same at h
  | inr other ↦ cc (other_than_self i j other (v.exclusive i j inside (rw other at h)))
]
  where
    other_than_self : (i j : ℕ) → (i == j) ≡ false → i ≡ j → false ≡ true
    other_than_self i j e p = ground arith

empties-Inv :
    (s : System) (i : ℕ) (file : LockFile)
    → Inv s
    → IsInside (s.phase i)
    → Inv (record { file = file; phase = set_phase i idle s.phase })
empties-Inv s i file v inside = record {
  exclusive = λ j k hj hk. absurd (leaves s i j v inside hj);
  guarded = λ j hj. absurd (leaves s i j v inside hj);
}

Step-Inv : {s t : System} → Step s t → Inv s → Inv t
unfolding write_lock
Step-Inv {s} (create i info file e o) v =
    let free = open_exclusive_missing s.file file o in
    sole-Inv i _
      (λ j hj. elim (IsInside-set_phase i j (created info) s.phase hj) [
        | inl same ↦ same
        | inr was ↦ absurd (v.guarded j was free)
      ])
      (open_exclusive_there s.file file o)
Step-Inv {s} (write i info e) v =
    moves-Inv s i (holding info) _ v (created-IsInside _ info e) (λ e. cc)
Step-Inv {s} (check_own i info e own) v =
    let inside = holding-IsInside _ info e in
    moves-Inv s i (unlinking info) s.file v inside (v.guarded i inside)
Step-Inv {s} (forgo i info e other) v = empties-Inv s i s.file v (holding-IsInside _ info e)
Step-Inv {s} (remove i info e) v = empties-Inv s i missing v (unlinking-IsInside _ info e)

abbrev pub start : LockFile → System
start file = record { file = file; phase = λ i. idle }

start-Inv : (file : LockFile) → Inv (start file)
start-Inv file = record { exclusive = λ i j h k. absurd h; guarded = λ i h. absurd h }

Reach-Inv : {s t : System} → Inv s → Reach s t → Inv t
Reach-Inv v here = v
Reach-Inv v (next r st) = Step-Inv st (Reach-Inv v r)

-- Mutual exclusion: whatever the order in which processes open, write, read back and unlink, no
-- two of them are between a successful open and its unlink at once, as long as nobody
-- force-clears the lock and no call fails half-way. While one is, the lock file is there.
pub mutual_exclusion :
    (file : LockFile) {t : System} (i j : ℕ)
    → Reach (start file) t
    → IsInside (t.phase i)
    → IsInside (t.phase j)
    → (i ≡ j) × (t.file ≢ missing)
mutual_exclusion file i j r hi hj =
    let v = Reach-Inv (start-Inv file) r in (v.exclusive i j hi hj, v.guarded i hi)
