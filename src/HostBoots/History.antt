-- ===== src/HostBoots/History.antt =====
-- The stored list against the history of the host.
use mathlib.Core.List.{append-nil, append_assoc}
use signalk_doctor_server.Common.{
  ◌≡◌, refl, sym, ap, ◌∙◌, subst, Bool, true, false, ◌&&◌, not, Option, none, some, List, [], ◌∷◌,
  ◌++◌, String, str_eq, if◌then◌else◌, take_last, map, All, map-append, map-take_last,
  take_last-append,
}
use signalk_doctor_server.HostBoots.{
  UncleanRestart, HostBootState, max_unclean, Boots, with_previous, next_state, note_under_voltage,
  note_at, mark_clean_stop_sync, at_boot, store, Host, record_boot, read_boot_id, is_wsl,
  is_boot_id, restart_of,
}
use signalk_doctor_server.Common.Text.{codes}

-- One run of the doctor: the release name of the kernel, the boot it ran in, when it started, whether an under-voltage alarm was
-- seen, and whether it was stopped cleanly. A run that was killed, or whose last write failed, is
-- not clean.
pub record Session : Type 0 where
  pub os_release : Option String
  pub boot : String
  pub booted_at : Option String
  pub started_at : String
  pub alarm : Option String
  pub clean : Bool

abbrev pub noted : Option String → Boots → Boots
noted none b = b
noted (some now) b = (note_under_voltage now b).0

abbrev pub stopped : Bool → Boots → Boots
stopped clean b = if clean then mark_clean_stop_sync true b else b

abbrev pub host_of : Session → Host
host_of s = record { os_release = s.os_release; boot_id = some s.boot; booted_at = s.booted_at }

-- The doctor runs through a session; the memory of the run before is gone.
abbrev pub run_session : Session → Boots → Boots
run_session s b =
    let (begun, result) = record_boot true (host_of s) s.started_at (record b { current = none }) in
    stopped s.clean (noted s.alarm begun)

abbrev pub run_sessions : List Session → Boots → Boots
run_sessions [] b = b
run_sessions (s ∷ rest) b = run_sessions rest (run_session s b)

-- The boots that ended without a clean stop: the last session in them was not stopped, and the
-- next session is in another boot.
abbrev pub crashes_after : Session → List Session → List String
crashes_after s [] = []
crashes_after s (t ∷ rest) =
    let later = crashes_after t rest in
    if not (str_eq s.boot t.boot) && not s.clean then s.boot ∷ later else later

abbrev pub crashes : List Session → List String
crashes [] = []
crashes (s ∷ rest) = crashes_after s rest

abbrev pub boot_ids : List UncleanRestart → List String
boot_ids = map λ u. u.boot_id

abbrev pub IsValid : Session → Type 0
IsValid s = (is_boot_id (codes s.boot) ≡ true) × (is_wsl s.os_release ≡ false)

-- What the disk holds once a session is over: its boot, whether it was clean, and the last twenty
-- of a list of boots.
abbrev Holds : Session → List String → Option HostBootState → Type 0
Holds s boots none = ⊥
Holds s boots (some p) =
    (p.boot_id ≡ s.boot)
    × (p.clean_stop ≡ s.clean)
    × (boot_ids p.unclean ≡ take_last max_unclean boots)

-- The list that a session's start stores.
abbrev HoldsList : List String → List UncleanRestart → Type 0
HoldsList boots us = boot_ids us ≡ take_last max_unclean boots

abbrev grown : Session → Session → List String → List String
grown s t boots = if not (str_eq s.boot t.boot) && not s.clean then boots ++ s.boot ∷ [] else boots

ended-Holds :
    (s : Session) (boots : List String) (n : HostBootState)
    → n.boot_id ≡ s.boot
    → n.clean_stop ≡ false
    → HoldsList boots n.unclean
    → Holds s boots
        (stopped s.clean (noted s.alarm (record { stored = some n; current = some n }))).stored
unfolding note_under_voltage note_at mark_clean_stop_sync
ended-Holds s boots n same running list = by_alarm s.alarm n.under_voltage_at s.clean
  where
    by_alarm :
        (a v : Option String) (clean : Bool)
        → Holds
            (record s { alarm = a; clean = clean })
            boots
            (stopped clean (
              noted a (record {
                stored = some (record n { under_voltage_at = v });
                current = some (record n { under_voltage_at = v });
              }))).stored
    by_alarm none v true = (same, refl, list)
    by_alarm none v false = (same, running, list)
    by_alarm (some at) none true = (same, refl, list)
    by_alarm (some at) none false = (same, running, list)
    by_alarm (some at) (some w) true = (same, refl, list)
    by_alarm (some at) (some w) false = (same, running, list)

with_previous-HoldsList :
    (s t : Session) (boots : List String) (p : HostBootState) (booted_at : Option String)
    (now : String)
    → Holds s boots (some p)
    → HoldsList
        (grown s t boots)
        (take_last max_unclean (with_previous (some p) t.boot booted_at now))
unfolding with_previous
with_previous-HoldsList s t boots p booted_at now (same, clean, list) =
    map-take_last (λ u. u.boot_id) max_unclean
      (if crashed then p.unclean ++ last ∷ [] else p.unclean)
    ∙ pick crashed
    ∙ ap (λ b. take_last max_unclean (if b then boots ++ s.boot ∷ [] else boots))
        (ap (λ i. not (str_eq i t.boot) && not p.clean_stop) same
          ∙ ap (λ c. not (str_eq s.boot t.boot) && not c) clean)
  where
    crashed : Bool
    crashed = not (str_eq p.boot_id t.boot) && not p.clean_stop

    last : UncleanRestart
    last = restart_of p booted_at now

    pick :
        (b : Bool)
        → take_last max_unclean (boot_ids (if b then p.unclean ++ last ∷ [] else p.unclean))
          ≡ take_last max_unclean (if b then boots ++ s.boot ∷ [] else boots)
    pick true =
        ap (take_last max_unclean) (
          map-append (λ u. u.boot_id) p.unclean (last ∷ [])
          ∙ ap (λ l. l ++ p.boot_id ∷ []) list
          ∙ ap (λ i. take_last max_unclean boots ++ i ∷ []) same)
        ∙ take_last-append max_unclean boots (s.boot ∷ [])
    pick false =
        ap (take_last max_unclean) (list ∙ sym (append-nil (take_last max_unclean boots)))
        ∙ take_last-append max_unclean boots []
        ∙ ap (take_last max_unclean) (append-nil boots)

begun_at :
    (t : Session) (b : Boots)
    → IsValid t
    → let next = next_state b.stored t.boot t.booted_at t.started_at in
      (record_boot true (host_of t) t.started_at (record b { current = none })).0
      ≡ record { stored = some next; current = some next }
unfolding record_boot read_boot_id at_boot store
begun_at t b (valid, native) = rw native (rw valid refl)

run_session-Holds :
    (s t : Session) (boots : List String) (b : Boots)
    → IsValid t
    → Holds s boots b.stored
    → Holds t (grown s t boots) (run_session t b).stored
unfolding next_state
run_session-Holds s t boots b valid h =
    let next = next_state b.stored t.boot t.booted_at t.started_at in
    subst (λ x. Holds t (grown s t boots) (stopped t.clean (noted t.alarm x)).stored)
      (sym (begun_at t b valid))
      (ended-Holds t (grown s t boots) next refl refl (listed b.stored h))
  where
    listed :
        (o : Option HostBootState)
        → Holds s boots o
        → HoldsList
            (grown s t boots)
            (take_last max_unclean (with_previous o t.boot t.booted_at t.started_at))
    listed none k = absurd k
    listed (some p) k = with_previous-HoldsList s t boots p t.booted_at t.started_at k

first-Holds :
    (t : Session)
    → IsValid t
    → Holds t [] (run_session t (record { stored = none; current = none })).stored
unfolding next_state with_previous
first-Holds t valid =
    let next = next_state none t.boot t.booted_at t.started_at in
    subst (λ x. Holds t [] (stopped t.clean (noted t.alarm x)).stored)
      (sym (begun_at t (record { stored = none; current = none }) valid))
      (ended-Holds t [] next refl refl refl)

-- The boots of the unclean restarts that are stored.
abbrev pub stored_crashes : Boots → List String
stored_crashes b = elim b.stored [ none ↦ [] | some p ↦ boot_ids p.unclean ]

run_sessions-Holds :
    (s : Session) (rest : List Session) (boots : List String) (b : Boots)
    → All IsValid rest
    → Holds s boots b.stored
    → stored_crashes (run_sessions rest b) ≡ take_last max_unclean (boots ++ crashes_after s rest)
run_sessions-Holds s [] boots b valid h = ended b.stored h
  where
    ended :
        (o : Option HostBootState)
        → Holds s boots o
        → elim o [ none ↦ [] | some p ↦ boot_ids p.unclean ] ≡ take_last max_unclean (boots ++ [])
    ended none k = absurd k
    ended (some p) (same, clean, list) = list ∙ ap (take_last max_unclean) (sym (append-nil boots))
run_sessions-Holds s (t ∷ rest) boots b (valid, more) h =
    run_sessions-Holds t rest (grown s t boots) (run_session t b) more
      (run_session-Holds s t boots b valid h)
    ∙ ap (take_last max_unclean) (shift (not (str_eq s.boot t.boot) && not s.clean))
  where
    later : List String
    later = crashes_after t rest

    shift :
        (c : Bool)
        → (if c then boots ++ s.boot ∷ [] else boots) ++ later
          ≡ boots ++ (if c then s.boot ∷ later else later)
    shift true = append_assoc boots (s.boot ∷ []) later
    shift false = refl

-- On a host that is not WSL, whatever sessions the doctor goes through from its first start on,
-- the stored list names the last twenty boots that ended without a clean stop, in order, and no
-- other: a doctor that is restarted or killed within a boot counts for nothing. The boot ids are
-- well formed, and the writes at a start and at an alarm work.
pub unclean_are_crashes :
    (sessions : List Session)
    → All IsValid sessions
    → stored_crashes (run_sessions sessions (record { stored = none; current = none }))
      ≡ take_last max_unclean (crashes sessions)
unclean_are_crashes [] valid = refl
unclean_are_crashes (s ∷ rest) (valid, more) =
    run_sessions-Holds s rest [] (run_session s (record { stored = none; current = none })) more
      (first-Holds s valid)
