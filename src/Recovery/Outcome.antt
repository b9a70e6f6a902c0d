-- ===== src/Recovery/Outcome.antt =====
-- What a recovery reports, and what it does to the files.
use signalk_doctor_server.Common.{
  ◌≡◌, refl, ◌≢◌, ◌⊎◌, inl, inr, true, false, Option, none, some, List, [], ◌∷◌, ◌++◌, String, ◌^^◌,
}
use signalk_doctor_server.Common.Maps.{Map}
use signalk_doctor_server.Recovery.{
  Entry, LastGood, Restored, RecoverResult, Machine, Faults, restore_one, Progress, after_restore,
  restore_all, with_error, call, restarted, restart_all, reloaded, finish, no_result, entries,
  recover_all, unit_of, restart_one, reload_one, restored_one, entry_of, one, recover_one,
}

-- A result that is fine exactly if it lists no error.
abbrev pub IsHonest : RecoverResult → Type 0
IsHonest r = ((r.ok ≡ true) × (r.errors ≡ [])) ⊎ ((r.ok ≡ false) × (r.errors ≢ []))

append_one_filled : {A : Type 0} (xs : List A) (x : A) → xs ++ x ∷ [] ≢ []
append_one_filled [] x e = cc
append_one_filled (y ∷ xs) x e = cc

with_error-IsHonest : (e : String) (r : RecoverResult) → IsHonest (with_error e r)
with_error-IsHonest e r = inr (refl, append_one_filled r.errors e)

module _ (faults : Faults) where
  after_restore-IsHonest :
      (quadlet : String) (entry : Entry) (p : Progress) (x : Machine × Option String)
      → IsHonest p.result
      → IsHonest (after_restore quadlet entry p x).result
  unfolding after_restore
  after_restore-IsHonest quadlet entry p (m, none) h = h
  after_restore-IsHonest quadlet entry p (m, some e) h =
      inr (refl, append_one_filled p.result.errors (quadlet ^^ ": " ^^ e))

  pub restore_all-IsHonest :
      (es : Map Entry) (p : Progress)
      → IsHonest p.result
      → IsHonest (restore_all faults es p).result
  unfolding restore_all
  restore_all-IsHonest [] p h = h
  restore_all-IsHonest ((quadlet, entry) ∷ rest) p h =
      restore_all-IsHonest rest _ (after_restore-IsHonest quadlet entry p _ h)

  restarted-IsHonest :
      (unit : String) (e : Option String) (r : RecoverResult)
      → IsHonest r
      → IsHonest (restarted unit e r)
  unfolding restarted
  restarted-IsHonest unit none r h = h
  restarted-IsHonest unit (some e) r h = with_error-IsHonest _ r

  restart_all-IsHonest :
      (units : List String) (m : Machine) (r : RecoverResult)
      → IsHonest r
      → IsHonest (restart_all faults units m r).1
  unfolding restart_all
  restart_all-IsHonest [] m r h = h
  restart_all-IsHonest (unit ∷ units) m r h =
      restart_all-IsHonest units (call unit m) _ (restarted-IsHonest unit (faults.restart unit) r h)

  -- After the loop something was restored, or an error says what was not.
  abbrev pub Covers : RecoverResult → Type 0
  Covers r = (r.restored ≢ []) ⊎ (r.errors ≢ [])

  after_restore-Covers :
      (quadlet : String) (entry : Entry) (p : Progress) (x : Machine × Option String)
      → Covers (after_restore quadlet entry p x).result
  unfolding after_restore
  after_restore-Covers quadlet entry p (m, none) = inl (append_one_filled p.result.restored _)
  after_restore-Covers quadlet entry p (m, some e) = inr (append_one_filled p.result.errors _)

  restore_all-Covers :
      (es : Map Entry) (p : Progress) → Covers p.result → Covers (restore_all faults es p).result
  unfolding restore_all
  restore_all-Covers [] p h = h
  restore_all-Covers ((quadlet, entry) ∷ rest) p h =
      restore_all-Covers rest _ (after_restore-Covers quadlet entry p _)

  pub restore_some-Covers :
      (quadlet : String) (entry : Entry) (rest : Map Entry) (p : Progress)
      → Covers (restore_all faults ((quadlet, entry) ∷ rest) p).result
  unfolding restore_all
  restore_some-Covers quadlet entry rest p =
      restore_all-Covers rest _ (after_restore-Covers quadlet entry p _)

  reloaded-IsHonest :
      (e : Option String) (units : List String) (m : Machine) (r : RecoverResult)
      → IsHonest r
      → IsHonest (reloaded faults e units m r).1
  unfolding reloaded
  reloaded-IsHonest none units m r h = restart_all-IsHonest units m r h
  reloaded-IsHonest (some e) units m r h = with_error-IsHonest _ r

  finish-IsHonest :
      (p : Progress) (l : List Restored)
      → p.result.restored ≡ l
      → IsHonest p.result
      → Covers p.result
      → IsHonest (finish faults p l).1
  unfolding finish
  finish-IsHonest p [] e h (inl some_restored) = absurd (some_restored e)
  finish-IsHonest p [] e h (inr some_error) = inr (refl, some_error)
  finish-IsHonest p (r ∷ rs) e h c =
      reloaded-IsHonest faults.reload p.units (call "daemon-reload" p.machine) p.result h

  entries-IsHonest : (es : Map Entry) (m : Machine) → IsHonest (entries faults es m).1
  unfolding entries
  entries-IsHonest [] m = with_error-IsHonest _ no_result
  entries-IsHonest ((quadlet, entry) ∷ rest) m =
      let start : Progress = record { machine = m; result = no_result; units = [] } in
      let first =
        after_restore quadlet entry start (restore_one faults quadlet entry.snapshot_path m) in
      let p = restore_all faults ((quadlet, entry) ∷ rest) start in
      finish-IsHonest p p.result.restored refl
        (restore_all-IsHonest ((quadlet, entry) ∷ rest) start (inl (refl, refl)))
        (restore_some-Covers quadlet entry rest start)

  -- A recovery says ok exactly if it lists no error: one that fails to restore, to reload or to
  -- restart anything, or that finds nothing to restore, is never reported as fine.
  pub recover_all-IsHonest :
      (lg : Option LastGood) (m : Machine) → IsHonest (recover_all faults lg m).1
  unfolding recover_all
  recover_all-IsHonest none m = with_error-IsHonest _ no_result
  recover_all-IsHonest (some lg) m = entries-IsHonest lg.quadlets m

  restart_one-IsHonest :
      (unit : Option String) (m : Machine) (r : RecoverResult)
      → IsHonest r
      → IsHonest (restart_one faults unit m r).1
  unfolding restart_one
  restart_one-IsHonest none m r h = h
  restart_one-IsHonest (some unit) m r h = by_error (faults.restart unit)
    where
      by_error : (e : Option String) → IsHonest (elim e [ none ↦ r | some e ↦ with_error e r ])
      by_error none = h
      by_error (some e) = with_error-IsHonest e r

  restored_one-IsHonest :
      (quadlet : String) (entry : Entry) (x : Machine × Option String)
      → IsHonest (restored_one faults quadlet entry x).1
  unfolding restored_one reload_one
  restored_one-IsHonest quadlet entry (m, some e) = with_error-IsHonest e no_result
  restored_one-IsHonest quadlet entry (m, none) = by_reload faults.reload
    where
      result : RecoverResult
      result = record no_result {
        restored =
            record { quadlet = quadlet; from = entry.snapshot_path; to_tag = entry.tag } ∷ [];
      }

      by_reload :
          (e : Option String)
          → IsHonest (reload_one faults e (unit_of quadlet) (call "daemon-reload" m) result).1
      by_reload none =
          restart_one-IsHonest (unit_of quadlet) (call "daemon-reload" m) result (inl (refl, refl))
      by_reload (some e) = with_error-IsHonest e result

  -- A recovery of one quadlet says ok exactly if it lists no error.
  pub recover_one-IsHonest :
      (lg : Option LastGood) (quadlet : String) (m : Machine)
      → IsHonest (recover_one faults lg quadlet m).1
  unfolding recover_one one
  recover_one-IsHonest lg quadlet m = by_entry (entry_of lg quadlet)
    where
      by_entry : (o : Option Entry) → IsHonest (one faults quadlet o m).1
      by_entry none = with_error-IsHonest _ no_result
      by_entry (some entry) =
          restored_one-IsHonest quadlet entry (restore_one faults quadlet entry.snapshot_path m)
