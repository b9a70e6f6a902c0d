-- ===== src/Probes/Runner/Honest.antt =====
-- Every probe reports, under its own name, and a probe within its budget is heard.
use native.Mathlib.Nat.{div-add-mod, mod-lt}
use signalk_doctor_server.Common.{
  ℕ, suc, ◌+◌, ◌-◌, ◌≤◌, ◌<◌, min, ◌≡◌, refl, ap, ◌∙◌, Option, none, some, List, [], ◌∷◌, String,
  arith, length, map, All,
}
use signalk_doctor_server.Probes.Budget.{
  probe_timeout_ms, start_probe_deadline, hop, remaining, run_hops,
}
use signalk_doctor_server.Probes.Runner.{
  ProbeStatus, ok, warn, fail, unknown, ProbeResult, Behaviour, resolves, rejects, hangs, ProbeSpec,
  race, run_with_timeout, run_specs, Summary, counted, summarize, no_counts, run_all_probes,
}

abbrev pub total : Summary → ℕ
total s = s.ok_count + s.warn_count + s.fail_count + s.unknown_count

-- A probe's own result carries the id that its spec declares.
abbrev pub Emits : String → Behaviour → Type 0
Emits id (resolves at r) = r.id ≡ id
Emits id (rejects at m) = Unit
Emits id hangs = Unit

abbrev pub IsLabelled : ProbeSpec → Type 0
IsLabelled spec = Emits spec.id spec.run

probe_timeout_ms_least :
    (number : String → Option ℕ) (raw : Option String) → 250 ≤ probe_timeout_ms number raw
unfolding probe_timeout_ms
probe_timeout_ms_least number none = omega arith
probe_timeout_ms_least number (some raw) = ground arith

deadline_before :
    (ceiling now : ℕ) → 250 ≤ ceiling → start_probe_deadline ceiling now < now + ceiling
unfolding start_probe_deadline
deadline_before ceiling now h =
    let ten : 0 < 10 = omega arith in
    omega (arith, div-add-mod (ceiling + 9) 10, mod-lt (ceiling + 9) ten)

run_hops_within :
    (ends_at now : ℕ) (hops : List (ℕ × ℕ)) → now ≤ ends_at → run_hops ends_at now hops ≤ ends_at
unfolding run_hops hop remaining
run_hops_within ends_at now [] h = h
run_hops_within ends_at now ((want, took) ∷ hops) h =
    run_hops_within ends_at (now + min took (min want (ends_at - now))) hops (omega arith)

total-counted : (st : ProbeStatus) (s : Summary) → total (counted st s) ≡ suc (total s)
total-counted ok s = omega arith
total-counted warn s = omega arith
total-counted fail s = omega arith
total-counted unknown s = omega arith

total-summarize :
    (rs : List ProbeResult) (s : Summary) → total (summarize rs s) ≡ total s + length rs
unfolding summarize
total-summarize [] s = omega arith
total-summarize (r ∷ rs) s =
    omega (arith, total-summarize rs (counted r.status s), total-counted r.status s)

module _ (decimal : ℕ → String) where
  run_with_timeout-id :
      (spec : ProbeSpec) (timeout_ms : ℕ)
      → IsLabelled spec
      → (run_with_timeout decimal spec timeout_ms).id ≡ spec.id
  unfolding run_with_timeout race
  run_with_timeout-id spec timeout_ms labelled = by_run spec.run labelled
    where
      by_run : (b : Behaviour) → Emits spec.id b → (race decimal spec timeout_ms b).id ≡ spec.id
      by_run (resolves at r) h = ground arith
      by_run (rejects at m) h = ground arith
      by_run hangs h = refl

  run_specs-ids :
      (specs : List ProbeSpec) (timeout_ms : ℕ)
      → All IsLabelled specs
      → map (λ r. r.id) (run_specs decimal specs timeout_ms) ≡ map (λ s. s.id) specs
  unfolding run_specs
  run_specs-ids [] timeout_ms h = refl
  run_specs-ids (spec ∷ specs) timeout_ms (labelled, more) =
      cc (run_with_timeout-id spec timeout_ms labelled, run_specs-ids specs timeout_ms more)

  length-run_specs :
      (specs : List ProbeSpec) (timeout_ms : ℕ)
      → length (run_specs decimal specs timeout_ms) ≡ length specs
  unfolding run_specs
  length-run_specs [] timeout_ms = refl
  length-run_specs (spec ∷ specs) timeout_ms = ap suc (length-run_specs specs timeout_ms)

  -- Whatever the probes do, also where they throw or never come back, each one is in the results
  -- under the id that it declares, in order, and the summary counts each once.
  pub run_all_probes_reports :
      (specs : List ProbeSpec) (timeout_ms : ℕ)
      → All IsLabelled specs
      → (map (λ r. r.id) (run_all_probes decimal specs timeout_ms).results ≡ map (λ s. s.id) specs)
        × (total (run_all_probes decimal specs timeout_ms).summary ≡ length specs)
  unfolding run_all_probes
  run_all_probes_reports specs timeout_ms labelled = (
    run_specs-ids specs timeout_ms labelled,
    total-summarize (run_specs decimal specs timeout_ms) no_counts
        ∙ omega (arith, length-run_specs specs timeout_ms),
  )

  -- A probe that spends its time in hops of the budget, however many and however slow, is done
  -- before the runner's timer fires, so what the runner reports is the probe's own verdict.
  pub budget_heard :
      (number : String → Option ℕ) (raw : Option String) (hops : List (ℕ × ℕ)) (spec : ProbeSpec)
      (verdict : ProbeResult)
      → spec.run
        ≡ resolves (run_hops (start_probe_deadline (probe_timeout_ms number raw) 0) 0 hops) verdict
      → run_with_timeout decimal spec (probe_timeout_ms number raw) ≡ verdict
  unfolding run_with_timeout race
  budget_heard number raw hops spec verdict runs =
      let ceiling = probe_timeout_ms number raw in
      let least = probe_timeout_ms_least number raw in
      let before = deadline_before ceiling 0 least in
      let within = run_hops_within (start_probe_deadline ceiling 0) 0 hops (omega arith) in
      rw runs (ground (arith, within, before))
