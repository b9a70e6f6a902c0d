-- ===== src/Podman/Exec/Polling.antt =====
-- The poll loop ends, and reports an exit only from an answer that says so.
use native.Mathlib.Nat.{div-add-mod, mod-lt}
use signalk_doctor_server.Common.{
  ℕ, zero, suc, ◌+◌, ◌*◌, ◌/◌, ◌≤◌, ◌<◌, ◌≡◌, refl, Bool, true, false, Option, none, some, arith,
  leb, inl, inr, ◌≢◌, Option-cases,
}
use signalk_doctor_server.Podman.Exec.{
  Inspection, inspect_error, inspected, ExitWait, exit, Polls, poll, wait_for_exit, code_or_one,
}

-- `setTimeout(r, interval)` between two polls: the next answer is there no earlier than that.
abbrev pub Spaced : ℕ → ℕ → Polls → Type 0
Spaced interval now p = (now ≤ p.time 0) × ((i : ℕ) → p.time i + interval ≤ p.time (suc i))

poll-ne-none :
    (fuel deadline interval : ℕ) (p : Polls) (i : ℕ)
    → ((j : ℕ) → p.time j + interval ≤ p.time (suc j))
    → deadline ≤ p.time i + fuel * interval
    → poll (suc fuel) deadline p i ≢ none
unfolding poll
poll-ne-none zero deadline interval p i spaced h = ground arith
poll-ne-none (suc fuel) deadline interval p i spaced h =
    ground (arith, spaced i, poll-ne-none fuel deadline interval p (suc i) spaced)

-- The wait ends: however the command behaves, the polls that fit the budget are made and then it
-- reports an exit, an error, or that the command still runs.
pub wait_for_exit-total :
    (budget interval now : ℕ) (p : Polls)
    → 0 < interval
    → Spaced interval now p
    → (w : ExitWait) × (wait_for_exit budget interval now p ≡ some w)
unfolding wait_for_exit
wait_for_exit-total budget interval now p positive (first, spaced) =
    elim (Option-cases (wait_for_exit budget interval now p)) [
      | inl e ↦ absurd (
          poll-ne-none (suc (budget / interval)) (now + budget) interval p 0 spaced
            (omega (arith, div-add-mod budget interval, mod-lt budget positive)) e)
      | inr found ↦ found
    ]

-- Some answer said that the command runs no more, with this code (1 where the record lost it).
abbrev pub Answered : Polls → ℕ → Type 0
Answered p code =
    (j : ℕ) × (c : Option ℕ) × (p.answer j ≡ inspected false c) × (code ≡ code_or_one c)

poll_exit :
    (fuel deadline : ℕ) (p : Polls) (i code : ℕ)
    → poll fuel deadline p i ≡ some (exit code)
    → Answered p code
unfolding poll
poll_exit zero deadline p i code h = cc
poll_exit (suc fuel) deadline p i code h =
    split (poll_exit fuel deadline p (suc i) code) (p.answer i) refl (leb deadline (p.time i)) refl
  where
    split :
        (poll fuel deadline p (suc i) ≡ some (exit code) → Answered p code)
        → (a : Inspection) → p.answer i ≡ a
        → (b : Bool) → leb deadline (p.time i) ≡ b
        → Answered p code
    split ih (inspect_error e) q b r = cc (rw (q, poll) at h)
    split ih (inspected false c) q b r = (i, c, q, ground arith)
    split ih (inspected true c) q true r = cc (rw (q, r, poll) at h)
    split ih (inspected true c) q false r = ih (rw (q, r, poll) at h)

pub wait_for_exit_proven :
    (budget interval now : ℕ) (p : Polls) (code : ℕ)
    → wait_for_exit budget interval now p ≡ some (exit code)
    → Answered p code
unfolding wait_for_exit
wait_for_exit_proven budget interval now p code =
    poll_exit (suc (suc (budget / interval))) (now + budget) p 0 code
