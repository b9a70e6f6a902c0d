-- ===== src/HostTimezone/Trusted.antt =====
-- Which zones are trusted, and how long the two timers run.
use signalk_doctor_server.Common.{
  ℕ, zero, suc, ◌+◌, ◌*◌, ◌≤◌, ◌<◌, ◌≡◌, ◌↔◌, refl, sym, ap, subst, ◌∙◌, Bool, true, false, ◌&&◌,
  ◌||◌, not, Option, none, some, List, String, arith, ◌^^◌, if◌then◌else◌, leb, all, length,
}
use signalk_doctor_server.Common.Strings.{trim_text, is_empty}
use signalk_doctor_server.Common.Text.{codes}
use signalk_doctor_server.HostTimezone.{
  empty, HostTimezoneResult, host_zone, no_zone, timeout_ms, Event, closes, fails, hangs, exited,
  timed_out, not_spawned, kept_output, run_systemd_run, is_valid_zone, is_zone_char,
  unit_timeout_sec, systemd_run_args, zone_of, nonzero, after_exit, after_run, read_host_timezone,
}

-- The host's own unit gets at least the client's budget, and the client's timer outlasts it.
pub unit_timeout_bounds :
    (setting : Option (Option ℕ))
    → (1 ≤ unit_timeout_sec (timeout_ms setting))
      × (timeout_ms setting ≤ unit_timeout_sec (timeout_ms setting) * 1000)
      × (unit_timeout_sec (timeout_ms setting) * 1000 < timeout_ms setting + 1000)
unfolding timeout_ms unit_timeout_sec
unit_timeout_bounds none = omega arith
unit_timeout_bounds (some none) = omega arith
unit_timeout_bounds (some (some zero)) = omega arith
unit_timeout_bounds (some (some (suc n))) = omega arith

module _ (decimal : ℕ → String) (quoted : String → String) (intl_knows : String → Bool) where
  -- A name of 1 to 64 of the characters that a zone may have, and Intl knows it.
  abbrev pub IsZone : String → Type 0
  IsZone z =
      (1 ≤ length (codes z))
      × (length (codes z) ≤ 64)
      × (all is_zone_char (codes z) ≡ true)
      × (intl_knows z ≡ true)

  -- The child ended well before the client's timer, and wrote the zone.
  abbrev pub Wrote : ℕ → Event → String → Type 0
  Wrote ms e z =
      (at : ℕ) × (stdout stderr : String) × (e ≡ closes at (some 0) stdout stderr)
      × (at < ms + 1000)
      × (trim_text (kept_output stdout) ≡ z)

  four_tests :
      (n : ℕ) (b c : Bool)
      → ((leb 1 n && leb n 64 && b && c) ≡ true) ↔ ((1 ≤ n) × (n ≤ 64) × (b ≡ true) × (c ≡ true))
  four_tests n b c = (
    λ h. (ground (h, arith), ground (h, arith), ground (h, arith), ground (h, arith)),
    λ (w, x, y, z). ground (w, x, y, z, arith),
  )

  is_valid_zone_iff : (z : String) → (is_valid_zone intl_knows z ≡ true) ↔ IsZone z
  unfolding is_valid_zone
  is_valid_zone_iff z = four_tests (length (codes z)) (all is_zone_char (codes z)) (intl_knows z)

  not_empty : (z : String) → IsZone z → is_empty z ≡ false
  not_empty String.[] (a, b, c, d) = absurd (omega arith)
  not_empty (String.◌∷◌ x s) h = refl

  -- An option is trusted exactly as far as its text is a zone.
  zone_of_iff :
      (s z : String) → (zone_of decimal quoted intl_knows s ≡ host_zone z) ↔ ((s ≡ z) × IsZone s)
  unfolding zone_of
  zone_of_iff s z =
      by_tests (is_empty s) (is_valid_zone intl_knows s) (is_valid_zone_iff s) (not_empty s)
    where
      by_tests :
          (a b : Bool)
          → ((b ≡ true) ↔ IsZone s)
          → (IsZone s → a ≡ false)
          → ((if a || not b
                then no_zone empty ("timedatectl returned no usable zone (" ^^ quoted s ^^ ")")
                else host_zone s)
              ≡ host_zone z)
            ↔ ((s ≡ z) × IsZone s)
      by_tests true b v e = (λ h. cc, λ (same, is). cc (e is))
      by_tests false true v e = (λ h. (cc, v.0 refl), λ (same, is). ap host_zone same)
      by_tests false false v e = (λ h. cc, λ (same, is). cc (v.1 is))

  abbrev Trusted : ℕ → Event → HostTimezoneResult → Type 0
  Trusted ms e r = (z : String) → (r ≡ host_zone z) ↔ (Wrote ms e z × IsZone z)

  run-Trusted :
      (ms : ℕ) (e : Event)
      → Trusted ms e (after_run decimal quoted intl_knows ms (run_systemd_run e (ms + 1000)))
  unfolding after_run run_systemd_run after_exit nonzero
  run-Trusted ms hangs z = (λ h. cc, λ ((at, o, x, same, b, t), is). cc)
  run-Trusted ms (fails at m) z = pick (leb (ms + 1000) at)
    where
      pick :
          (b : Bool)
          → (after_run decimal quoted intl_knows ms (if b then timed_out else not_spawned m)
              ≡ host_zone z)
            ↔ (Wrote ms (fails at m) z × IsZone z)
      pick true = (λ h. cc, λ ((x, o, y, same, u, t), is). cc)
      pick false = (λ h. cc, λ ((x, o, y, same, u, t), is). cc)
  run-Trusted ms (closes at exit stdout stderr) z = pick (leb (ms + 1000) at) exit refl
    where
      pick :
          (b : Bool) (exit : Option ℕ)
          → leb (ms + 1000) at ≡ b
          → (after_run decimal quoted intl_knows ms
                (if b then timed_out else exited exit (kept_output stdout) (kept_output stderr))
              ≡ host_zone z)
            ↔ (Wrote ms (closes at exit stdout stderr) z × IsZone z)
      pick true exit e = (
        λ h. cc,
        λ ((x, o, y, same, u, t), is).
            let moment : at ≡ x = cc in absurd (ground (e, moment, u, arith)),
      )
      pick false none e = (λ h. cc, λ ((x, o, y, same, u, t), is). cc)
      pick false (some (suc n)) e = (λ h. cc, λ ((x, o, y, same, u, t), is). cc)
      pick false (some zero) e =
          let f = zone_of_iff (trim_text (kept_output stdout)) z in
          (
            λ h.
                let (same, is) = f.0 h in
                ((at, stdout, stderr, refl, ground (e, arith), same), subst IsZone same is),
            λ ((x, o, y, same, u, t), is).
                let text : stdout ≡ o = cc in
                let zone : trim_text (kept_output stdout) ≡ z =
                  ap (λ s. trim_text (kept_output s)) text ∙ t in
                f.1 (zone, subst IsZone (sym zone) is),
          )

  -- A zone is reported exactly if the child exited with 0 before the client's timer fired and
  -- the last 10,000 characters of what it wrote, trimmed, are that zone: 1 to 64 of the characters that a name may have, and
  -- known to Intl.
  pub read_host_timezone-IsZone_iff :
      (setting : Option (Option ℕ)) (child : List String → Event) (z : String)
      → (read_host_timezone decimal quoted intl_knows setting child ≡ host_zone z) ↔ (
          Wrote (timeout_ms setting) (child (systemd_run_args decimal (timeout_ms setting))) z
          × IsZone z)
  unfolding read_host_timezone
  read_host_timezone-IsZone_iff setting child z =
      run-Trusted (timeout_ms setting) (child (systemd_run_args decimal (timeout_ms setting))) z
