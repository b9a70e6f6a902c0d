-- ===== src/Recovery/Files.antt =====
-- What a recovery may write.
use signalk_doctor_server.Common.{
  ◌≡◌, refl, sym, ap, ◌∙◌, subst, ◌⊎◌, inl, inr, Bool, true, false, Option, none, some, List, [],
  ◌∷◌, String, str_eq, eq_iff, arith, if◌then◌else◌, In,
}
use signalk_doctor_server.Common.Maps.{Map, lookup, insert, lookup-insert}
use signalk_doctor_server.Recovery.{
  Entry, LastGood, Restored, RecoverResult, Fault, no_fault, before_rename, after_rename, Machine,
  Faults, copied, read_snapshot, restore_one, Progress, after_restore, restore_all, call, restarted,
  restart_all, reloaded, finish, no_result, entries, recover_all,
}

-- Either nothing happened to the quadlet, or it has the content of a snapshot that an entry of
-- its name points to.
abbrev pub IsRestored : Map Entry → Machine → String → Machine → Type 0
IsRestored es before q after =
    (lookup q after.quadlets ≡ lookup q before.quadlets)
    ⊎ ((e : Entry) × In (q, e) es
        × (lookup q after.quadlets ≡ lookup e.snapshot_path before.snapshots))

module _ (faults : Faults) where
  abbrev Writes : String → String → String → Machine → Machine → Type 0
  Writes q quadlet path m after =
      (after.snapshots ≡ m.snapshots)
      × ((lookup q after.quadlets ≡ lookup q m.quadlets)
          ⊎ ((q ≡ quadlet) × (lookup q after.quadlets ≡ lookup path m.snapshots)))

  put_at :
      (q quadlet body : String) (m : Machine)
      → (lookup q (insert quadlet body m.quadlets) ≡ lookup q m.quadlets)
        ⊎ ((q ≡ quadlet) × (lookup q (insert quadlet body m.quadlets) ≡ some body))
  put_at q quadlet body m = pick (str_eq quadlet q) refl (lookup-insert quadlet q body m.quadlets)
    where
      pick :
          (b : Bool)
          → str_eq quadlet q ≡ b
          → lookup q (insert quadlet body m.quadlets)
            ≡ (if b then some body else lookup q m.quadlets)
          → (lookup q (insert quadlet body m.quadlets) ≡ lookup q m.quadlets)
            ⊎ ((q ≡ quadlet) × (lookup q (insert quadlet body m.quadlets) ≡ some body))
      pick true e there = inr (ground (eq_iff quadlet q, arith), there)
      pick false e there = inl there

  restore_one-Writes :
      (q quadlet path : String) (m : Machine)
      → Writes q quadlet path m (restore_one faults quadlet path m).0
  unfolding restore_one read_snapshot copied
  restore_one-Writes q quadlet path m = by_snapshot (lookup path m.snapshots) refl
    where
      placed :
          (body : String)
          → lookup path m.snapshots ≡ some body
          → Writes q quadlet path m (record m { quadlets = insert quadlet body m.quadlets })
      placed body e = (refl, found (put_at q quadlet body m))
        where
          found :
              (lookup q (insert quadlet body m.quadlets) ≡ lookup q m.quadlets)
                ⊎ ((q ≡ quadlet) × (lookup q (insert quadlet body m.quadlets) ≡ some body))
              → (lookup q (insert quadlet body m.quadlets) ≡ lookup q m.quadlets)
                ⊎ ((q ≡ quadlet)
                    × (lookup q (insert quadlet body m.quadlets) ≡ lookup path m.snapshots))
          found (inl same) = inl same
          found (inr (name, there)) = inr (name, there ∙ sym e)

      by_fault :
          (body : String) (f : Fault)
          → lookup path m.snapshots ≡ some body
          → Writes q quadlet path m (copied f quadlet body m).0
      by_fault body no_fault e = placed body e
      by_fault body (before_rename x) e = (refl, inl refl)
      by_fault body (after_rename x) e = placed body e

      by_snapshot :
          (o : Option String)
          → lookup path m.snapshots ≡ o
          → Writes q quadlet path m (read_snapshot faults quadlet path o m).0
      by_snapshot none e = (refl, inl refl)
      by_snapshot (some body) e = by_fault body (faults.restore quadlet) e

  after_restore-machine :
      (quadlet : String) (entry : Entry) (p : Progress) (x : Machine × Option String)
      → (after_restore quadlet entry p x).machine ≡ x.0
  unfolding after_restore
  after_restore-machine quadlet entry p (m, none) = refl
  after_restore-machine quadlet entry p (m, some e) = refl

  abbrev Restores : Map Entry → String → Machine → Machine → Type 0
  Restores es q before after = (after.snapshots ≡ before.snapshots) × IsRestored es before q after

  restore_all-Restores :
      (q : String) (es : Map Entry) (p : Progress)
      → Restores es q p.machine (restore_all faults es p).machine
  unfolding restore_all
  restore_all-Restores q [] p = (refl, inl refl)
  restore_all-Restores q ((quadlet, entry) ∷ rest) p =
      let one = restore_one faults quadlet entry.snapshot_path p.machine in
      let next = after_restore quadlet entry p one in
      step (restore_all faults rest next).machine one.0
        (subst (λ x. Restores rest q x (restore_all faults rest next).machine)
          (after_restore-machine quadlet entry p one) (restore_all-Restores q rest next))
        (restore_one-Writes q quadlet entry.snapshot_path p.machine)
    where
      step :
          (final middle : Machine)
          → Restores rest q middle final
          → Writes q quadlet entry.snapshot_path p.machine middle
          → Restores ((quadlet, entry) ∷ rest) q p.machine final
      step final middle (same, inr (e, m, there)) (kept, w) =
          (same ∙ kept, inr (e, inr m, there ∙ ap (lookup e.snapshot_path) kept))
      step final middle (same, inl there) (kept, inl before) = (same ∙ kept, inl (there ∙ before))
      step final middle (same, inl there) (kept, inr (name, put)) =
          (same ∙ kept, inr (entry, inl (ap (λ i. (i, entry)) name), there ∙ put))

  restart_all-quadlets :
      (units : List String) (m : Machine) (r : RecoverResult)
      → (restart_all faults units m r).0.quadlets ≡ m.quadlets
  unfolding restart_all
  restart_all-quadlets [] m r = refl
  restart_all-quadlets (unit ∷ units) m r =
      restart_all-quadlets units (call unit m) (restarted unit (faults.restart unit) r)

  reloaded-quadlets :
      (e : Option String) (units : List String) (m : Machine) (r : RecoverResult)
      → (reloaded faults e units m r).0.quadlets ≡ m.quadlets
  unfolding reloaded
  reloaded-quadlets none units m r = restart_all-quadlets units m r
  reloaded-quadlets (some e) units m r = refl

  finish-quadlets :
      (p : Progress) (l : List Restored) → (finish faults p l).0.quadlets ≡ p.machine.quadlets
  unfolding finish
  finish-quadlets p [] = refl
  finish-quadlets p (r ∷ rs) =
      reloaded-quadlets faults.reload p.units (call "daemon-reload" p.machine) p.result

  -- Whatever fails during a recovery, each quadlet is afterwards as it was, or has exactly the
  -- content of a snapshot that the last-known-good entry of its name points to.
  pub recover_all-IsRestored :
      (lg : LastGood) (m : Machine) (q : String)
      → IsRestored lg.quadlets m q (recover_all faults (some lg) m).0
  unfolding recover_all entries
  recover_all-IsRestored lg m q = by_entries lg.quadlets
    where
      moved :
          (es : Map Entry) (a b : Machine)
          → b.quadlets ≡ a.quadlets
          → IsRestored es m q a
          → IsRestored es m q b
      moved es a b same (inl e) = inl (ap (lookup q) same ∙ e)
      moved es a b same (inr (e, within, there)) = inr (e, within, ap (lookup q) same ∙ there)

      by_entries : (es : Map Entry) → IsRestored es m q (entries faults es m).0
      by_entries [] = inl refl
      by_entries (e ∷ rest) =
          let p =
            restore_all faults (e ∷ rest)
              (record { machine = m; result = no_result; units = [] }) in
          moved (e ∷ rest) p.machine (finish faults p p.result.restored).0
            (finish-quadlets p p.result.restored)
            (restore_all-Restores q (e ∷ rest)
              (record { machine = m; result = no_result; units = [] })).1
