-- ===== src/Installer/Again.antt =====
-- A refresh right after a refresh that worked finds nothing to do.
use signalk_doctor_server.Common.{
  ◌≡◌, refl, sym, ◌∙◌, subst, Bool, true, false, ◌&&◌, not, Option, none, some, List, [], ◌∷◌,
  String, str_eq, eq_iff, arith, All, Empty,
}
use signalk_doctor_server.Common.Text.{apart}
use signalk_doctor_server.Common.Maps.{lookup}
use signalk_doctor_server.Installer.Artifacts.{ArtifactDescriptor, artifacts}
use signalk_doctor_server.Installer.{
  ArtifactStatus, updated, unchanged, mount_missing, fetch_failed, write_failed, ArtifactResult,
  FileNode, Machine, got, Env, fetch_artifact, Ended, returned, raised, compare_with, against,
  after_fetch, refresh_one, cons_result, and_then, refresh_all, RefreshSummary, summarize,
  refresh_installer, is_host_script,
}
use signalk_doctor_server.Installer.Told.{Told, AllTell}
use signalk_doctor_server.Installer.Refresh.{dests, snaps, Reported, refresh_installer-Reported}

abbrev pub settled : ArtifactStatus → Bool
settled updated = true
settled unchanged = true
settled mount_missing = false
settled fetch_failed = false
settled write_failed = false

module _ (env : Env) where
  abbrev pub AllSettled : List ArtifactResult → Type 0
  AllSettled = All λ r. settled r.status ≡ true

  -- The file at the destination has the hash of what the pages serve.
  abbrev Current : Machine → ArtifactDescriptor → Type 0
  Current m d =
      (body : String) × (f : FileNode) × (fetch_artifact env d.remote_path ≡ got body)
      × (lookup d.dest_path m.files ≡ some f)
      × (env.hash f.body ≡ env.hash body)

  Told-Current :
      (d : ArtifactDescriptor) (b : Bool) (r : ArtifactResult) (s : ArtifactStatus)
      (old snap : Option FileNode) (m : Machine)
      → settled s ≡ true
      → Told env d b r s old (lookup d.dest_path m.files) snap
      → Current m d
  Told-Current d b r updated old snap m h (body, e, new, sha, k) =
      (body, record { body = body; mode = d.mode }, e, new, refl)
  Told-Current d b r unchanged old snap m h (body, f, e, was, new, same, sha) =
      (body, f, e, new, same)
  Told-Current d b r mount_missing old snap m h t = cc
  Told-Current d b r fetch_failed old snap m h t = cc
  Told-Current d b r write_failed old snap m h t = cc

  AllTell-Current :
      (a m : Machine) (ds : List ArtifactDescriptor) (rs : List ArtifactResult)
      → AllTell env a m ds rs
      → AllSettled rs
      → All (Current m) ds
  AllTell-Current a m [] rs t h = tt
  AllTell-Current a m (d ∷ ds) [] t h = elim t [ ]
  AllTell-Current a m (d ∷ ds) (r ∷ rs) ((same, t), ts) (h, hs) = (
    Told-Current d a.host_bin r r.status (lookup d.dest_path a.files) _ m h t,
    AllTell-Current a m ds rs ts hs,
  )

  abbrev Quiet : Machine → Machine × Ended ArtifactResult → Type 0
  Quiet m (after, raised e) = Empty
  Quiet m (after, returned r) = (after ≡ m) × (r.status ≡ unchanged)

  refresh_one-Quiet :
      (d : ArtifactDescriptor) (m : Machine)
      → m.host_bin ≡ true
      → env.read_fault d.dest_path ≡ none
      → Current m d
      → Quiet m (refresh_one env d m)
  unfolding refresh_one after_fetch against compare_with
  refresh_one-Quiet d m mounted readable (body, f, e, there, same) =
      let off : (is_host_script d.kind && not m.host_bin) ≡ false = ground (mounted, arith) in
      let equal : str_eq (env.hash f.body) (env.hash body) ≡ true =
        ground (eq_iff (env.hash f.body) (env.hash body), same, arith) in
      rw (off, e, there, readable, equal) (refl, refl)

  abbrev AllQuiet : Machine → Machine × Ended (List ArtifactResult) → Type 0
  AllQuiet m (after, raised e) = Empty
  AllQuiet m (after, returned rs) = (after ≡ m) × All (λ r. r.status ≡ unchanged) rs

  refresh_all-AllQuiet :
      (ds : List ArtifactDescriptor) (m : Machine)
      → m.host_bin ≡ true
      → ((p : String) → env.read_fault p ≡ none)
      → All (Current m) ds
      → AllQuiet m (refresh_all env ds m)
  unfolding refresh_all and_then cons_result
  refresh_all-AllQuiet [] m mounted readable h = (refl, tt)
  refresh_all-AllQuiet (d ∷ ds) m mounted readable (h, hs) =
      first (refresh_one env d m) (refresh_one-Quiet d m mounted (readable d.dest_path) h)
        (refresh_all-AllQuiet ds m mounted readable hs)
    where
      rest :
          (r : ArtifactResult) (x : Machine × Ended (List ArtifactResult))
          → r.status ≡ unchanged
          → AllQuiet m x
          → AllQuiet m (cons_result r x)
      rest r (after, raised e) s h = elim h [ ]
      rest r (after, returned rs) s (same, all) = (same, (s, all))

      first :
          (x : Machine × Ended ArtifactResult)
          → Quiet m x
          → AllQuiet m (refresh_all env ds m)
          → AllQuiet m (and_then (refresh_all env ds) x)
      first (after, raised e) q ih = elim q [ ]
      first (after, returned r) (same, s) ih =
          rest r (refresh_all env ds after) s
            (subst (λ x. AllQuiet m (refresh_all env ds x)) (sym same) ih)

  -- Nothing was done, and every artifact is reported as unchanged.
  abbrev pub Idle : Machine → Machine × Ended RefreshSummary → Type 0
  Idle m (after, raised e) = Empty
  Idle m (after, returned s) = (after ≡ m) × All (λ r. r.status ≡ unchanged) s.results

  abbrev pub AllDone : Machine × Ended RefreshSummary → Type 0
  AllDone (after, raised e) = Empty
  AllDone (after, returned s) = AllSettled s.results

  idle :
      (m : Machine)
      → All (Current m) (artifacts env.settings)
      → m.host_bin ≡ true
      → ((p : String) → env.read_fault p ≡ none)
      → (started finished : String) → Idle m (refresh_installer env started finished m)
  unfolding refresh_installer
  idle m h mounted readable started finished =
      by_end (refresh_all env (artifacts env.settings) m)
        (refresh_all-AllQuiet (artifacts env.settings) m mounted readable h)
    where
      by_end :
          (x : Machine × Ended (List ArtifactResult))
          → AllQuiet m x
          → Idle m (let (after, ended) = x in (after, summarize env started finished ended))
      by_end (after, raised e) h = h
      by_end (after, returned rs) h = h

  -- Right after a refresh that updated or found every artifact, the next one against the same
  -- pages writes nothing, takes no snapshot and reports every artifact as unchanged. The mount is
  -- there and what is there can be read; no two artifacts share a destination or a snapshot.
  pub refresh_twice-Idle :
      (t0 t1 t2 t3 : String) (m : Machine)
      → apart (dests (artifacts env.settings)) ≡ true
      → apart (snaps env (artifacts env.settings)) ≡ true
      → m.host_bin ≡ true
      → ((p : String) → env.read_fault p ≡ none)
      → AllDone (refresh_installer env t0 t1 m)
      → Idle
          (refresh_installer env t0 t1 m).0
          (refresh_installer env t2 t3 (refresh_installer env t0 t1 m).0)
  refresh_twice-Idle t0 t1 t2 t3 m h k mounted readable =
      by_end (refresh_installer env t0 t1 m) (refresh_installer-Reported env t0 t1 m h k)
    where
      by_end :
          (x : Machine × Ended RefreshSummary)
          → Reported env m x
          → AllDone x
          → Idle x.0 (refresh_installer env t2 t3 x.0)
      by_end (after, raised e) r d = elim d [ ]
      by_end (after, returned s) (f, ts, c) d =
          idle after (AllTell-Current m after (artifacts env.settings) s.results ts d)
            (f.mount ∙ mounted) readable t2 t3
