-- ===== src/Probes/Budget.antt =====
-- src/probes/budget.ts. Times are whole milliseconds; `Number(raw)` is an argument, `none` where
-- the result is not finite or not positive.
use signalk_doctor_server.Common.{
  ℕ, ◌+◌, ◌-◌, ◌/◌, min, max, Bool, Option, none, some, List, [], ◌∷◌, String, leb,
}

unfoldable pub probe_timeout_ms : (String → Option ℕ) → Option String → ℕ
probe_timeout_ms number none = 8000
probe_timeout_ms number (some raw) = elim (number raw) [
  | none ↦ 8000
  | some parsed ↦ max 250 parsed
]

abbrev pub margin_ms : ℕ
margin_ms = 500

abbrev pub min_hop_ms : ℕ
min_hop_ms = 1000

-- `Math.ceil(n / 10)`
abbrev pub ceil_tenth : ℕ → ℕ
ceil_tenth n = (n + 9) / 10

-- `startProbeDeadline()` at time `now`: the time at which the budget ends.
unfoldable pub start_probe_deadline : (ceiling now : ℕ) → ℕ
start_probe_deadline ceiling now = now + max 1 (ceiling - min margin_ms (ceil_tenth ceiling))

unfoldable pub remaining : (ends_at now : ℕ) → ℕ
remaining ends_at now = ends_at - now

unfoldable pub hop : (ends_at now want : ℕ) → ℕ
unfolding remaining
hop ends_at now want = min want (remaining ends_at now)

unfoldable pub allows : (ends_at now need : ℕ) → Bool
unfolding remaining
allows ends_at now need = leb need (remaining ends_at now)

-- A probe that does nothing but hops in a row: each asks for a time, and takes some of what it is
-- granted. The result is the time at which the last one ends.
unfoldable pub run_hops : (ends_at now : ℕ) → List (ℕ × ℕ) → ℕ
unfolding hop
run_hops ends_at now [] = now
run_hops ends_at now ((want, took) ∷ hops) =
    run_hops ends_at (now + min took (hop ends_at now want)) hops
