-- ===== src/Recovery/Verdict.antt =====
-- When a recovery of everything says ok.
use signalk_doctor_server.Common.{
  ◌≡◌, ◌↔◌, refl, sym, ◌∙◌, subst, inl, inr, true, false, Option, none, some, List, [], ◌∷◌, String,
  All, Empty,
}
use signalk_doctor_server.Common.Maps.{Map}
use signalk_doctor_server.Recovery.{
  Entry, LastGood, Restored, RecoverResult, Machine, Faults, restore_one, Progress, after_restore,
  restore_all, call, restarted, restart_all, reloaded, finish, no_result, entries, recover_all,
}
use signalk_doctor_server.Recovery.Outcome.{
  IsHonest, Covers, restore_all-IsHonest, restore_some-Covers,
}
use signalk_doctor_server.Recovery.One.{
  Starts, Works, GoesWell, restore_one_iff, restore_one-snapshots, after_restore_iff,
  after_restore-snapshots,
}

module _ (faults : Faults) where
  restore_all_iff :
      (es : Map Entry) (p : Progress)
      → GoesWell faults (restore_all faults es p)
        ↔ (GoesWell faults p × All (Works faults p.machine.snapshots) es)
  unfolding restore_all
  restore_all_iff [] p = (λ h. (h, tt), λ (h, t). h)
  restore_all_iff ((quadlet, entry) ∷ rest) p =
      let x = restore_one faults quadlet entry.snapshot_path p.machine in
      let next = after_restore quadlet entry p x in
      let same : next.machine.snapshots ≡ p.machine.snapshots =
        after_restore-snapshots faults quadlet entry p x
        ∙ restore_one-snapshots faults quadlet entry.snapshot_path p.machine in
      let (to, from) =
        after_restore_iff faults quadlet entry p x
          (restore_one_iff faults quadlet entry.snapshot_path p.machine) in
      let (to_rest, from_rest) = restore_all_iff rest next in
      (
        λ h.
            let (here, later) = to_rest h in
            let (well, works) = to here in
            (well, (works, subst (λ s. All (Works faults s) rest) same later)),
        λ (well, (works, later)).
            from_rest (from (well, works), subst (λ s. All (Works faults s) rest) (sym same) later),
      )

  restarted_iff :
      (unit : String) (e : Option String) (r : RecoverResult)
      → ((restarted unit e r).ok ≡ true) ↔ ((r.ok ≡ true) × (e ≡ none))
  unfolding restarted
  restarted_iff unit none r = (λ h. (h, refl), λ (h, k). h)
  restarted_iff unit (some e) r = (λ h. cc h, λ (h, k). cc k)

  restart_all_iff :
      (units : List String) (m : Machine) (r : RecoverResult)
      → ((restart_all faults units m r).1.ok ≡ true) ↔ ((r.ok ≡ true) × All (Starts faults) units)
  unfolding restart_all
  restart_all_iff [] m r = (λ h. (h, tt), λ (h, t). h)
  restart_all_iff (unit ∷ units) m r =
      let (to, from) = restarted_iff unit (faults.restart unit) r in
      let (to_rest, from_rest) =
        restart_all_iff units (call unit m) (restarted unit (faults.restart unit) r) in
      (
        λ h. let (here, all) = to_rest h in let (ok, starts) = to here in (ok, (starts, all)),
        λ (ok, (starts, all)). from_rest (from (ok, starts), all),
      )

  reloaded_iff :
      (e : Option String) (units : List String) (m : Machine) (r : RecoverResult)
      → ((reloaded faults e units m r).1.ok ≡ true)
        ↔ ((e ≡ none) × (r.ok ≡ true) × All (Starts faults) units)
  unfolding reloaded
  reloaded_iff none units m r =
      let (to, from) = restart_all_iff units m r in
      (λ h. let (ok, all) = to h in (refl, ok, all), λ (k, ok, all). from (ok, all))
  reloaded_iff (some e) units m r = (λ h. cc h, λ (k, ok, all). cc k)

  -- Nothing restored means that an error was met.
  nothing_restored :
      (r : RecoverResult)
      → r.restored ≡ []
      → IsHonest r
      → Covers faults r
      → r.ok ≡ true
      → false ≡ true
  nothing_restored r e h (inl some_restored) ok = absurd (some_restored e)
  nothing_restored r e (inl (fine, no_error)) (inr some_error) ok = absurd (some_error no_error)
  nothing_restored r e (inr (bad, some_errors)) (inr some_error) ok = sym bad ∙ ok

  finish_iff :
      (p : Progress) (l : List Restored)
      → p.result.restored ≡ l
      → IsHonest p.result
      → Covers faults p.result
      → ((finish faults p l).1.ok ≡ true)
        ↔ ((faults.reload ≡ none) × (p.result.ok ≡ true) × All (Starts faults) p.units)
  unfolding finish
  finish_iff p [] e h c = (λ k. cc k, λ (r, ok, all). nothing_restored p.result e h c ok)
  finish_iff p (r ∷ rs) e h c =
      reloaded_iff faults.reload p.units (call "daemon-reload" p.machine) p.result

  -- Everything that a recovery needs: some entry, and each of them works, and so does the reload.
  abbrev AllWork : Machine → Map Entry → Type 0
  AllWork m [] = Empty
  AllWork m (entry ∷ rest) = (faults.reload ≡ none) × All (Works faults m.snapshots) (entry ∷ rest)

  abbrev pub CanRecover : Machine → Option LastGood → Type 0
  CanRecover m none = Empty
  CanRecover m (some lg) = AllWork m lg.quadlets

  entries_iff : (es : Map Entry) (m : Machine) → ((entries faults es m).1.ok ≡ true) ↔ AllWork m es
  unfolding entries
  entries_iff [] m = (λ h. cc h, λ h. elim h [ ])
  entries_iff ((quadlet, entry) ∷ rest) m =
      let start : Progress = record { machine = m; result = no_result; units = [] } in
      let p = restore_all faults ((quadlet, entry) ∷ rest) start in
      let (to, from) =
        finish_iff p p.result.restored refl
          (restore_all-IsHonest faults ((quadlet, entry) ∷ rest) start (inl (refl, refl)))
          (restore_some-Covers faults quadlet entry rest start) in
      let (to_all, from_all) = restore_all_iff ((quadlet, entry) ∷ rest) start in
      (
        λ h. let (r, ok, all) = to h in let (begun, works) = to_all (ok, all) in (r, works),
        λ (r, works). let (ok, all) = from_all ((refl, tt), works) in from (r, ok, all),
      )

  -- A recovery of everything says ok exactly if there is an entry, the snapshot of every entry is
  -- there and is restored without a failure, the reload works, and every unit of an entry's
  -- quadlet restarts.
  pub recover_all-ok_iff :
      (lg : Option LastGood) (m : Machine)
      → ((recover_all faults lg m).1.ok ≡ true) ↔ CanRecover m lg
  unfolding recover_all
  recover_all-ok_iff none m = (λ h. cc h, λ h. elim h [ ])
  recover_all-ok_iff (some lg) m = entries_iff lg.quadlets m
