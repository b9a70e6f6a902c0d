-- ===== src/Installer/Told.antt =====
-- What the result of an artifact says of the files.
use signalk_doctor_server.Common.{
  ◌≡◌, ◌≢◌, refl, ◌∙◌, ◌⊎◌, inl, inr, Bool, true, false, ◌&&◌, not, Option, none, some, List, [],
  ◌∷◌, String, str_eq, eq_iff, arith, if◌then◌else◌, Empty, Bool-cases,
}
use signalk_doctor_server.Common.Maps.{lookup, insert, lookup-insert_self, lookup-insert_ne}
use signalk_doctor_server.Installer.Artifacts.{
  ArtifactKind, host_script, quadlet_template, detect_script, ArtifactDescriptor,
}
use signalk_doctor_server.Installer.{
  ArtifactStatus, updated, unchanged, mount_missing, fetch_failed, write_failed, ArtifactResult,
  FileNode, Machine, Fetched, got, threw, CopyFault, copies, copy_fails, WriteFault, writes,
  before_rename, after_rename, Env, fetch_artifact, snapshot_name, Ended, returned, raised,
  left_behind, copy_into, snapshot_of, snapshot_if_exists, placed, result, written, after_snapshot,
  replace, compare_with, against, after_fetch, refresh_one, is_host_script,
}

abbrev pub node : ArtifactDescriptor → String → FileNode
node d body = record { body = body; mode = d.mode }

module _ (env : Env) where
  -- The old content is named and kept.
  abbrev pub Kept : ArtifactDescriptor → Option String → (old snap : Option FileNode) → Type 0
  Kept d path none snap = path ≡ none
  Kept d path (some f) snap = (path ≡ some (snapshot_name env d.dest_path)) × (snap ≡ some f)

  -- What each status says: of the mount, the file before and after, and the snapshot.
  abbrev pub Told :
      ArtifactDescriptor
      → Bool
      → ArtifactResult
      → ArtifactStatus
      → (old new snap : Option FileNode) → Type 0
  Told d mounted r updated old new snap =
      (body : String) × (fetch_artifact env d.remote_path ≡ got body)
      × (new ≡ some (node d body))
      × (r.sha256 ≡ some (env.hash body))
      × Kept d r.snapshot_path old snap
  Told d mounted r unchanged old new snap =
      (body : String) × (f : FileNode) × (fetch_artifact env d.remote_path ≡ got body)
      × (old ≡ some f)
      × (new ≡ some f)
      × (env.hash f.body ≡ env.hash body)
      × (r.sha256 ≡ some (env.hash body))
  Told d mounted r mount_missing old new snap =
      (d.kind ≡ host_script) × (mounted ≡ false) × (new ≡ old)
  Told d mounted r fetch_failed old new snap =
      (e : String) × (fetch_artifact env d.remote_path ≡ threw e) × (new ≡ old)
  Told d mounted r write_failed old new snap =
      (body : String) × (fetch_artifact env d.remote_path ≡ got body)
      × ((new ≡ old) ⊎ (new ≡ some (node d body)))
      × Kept d r.snapshot_path old snap

  abbrev dest : ArtifactDescriptor → Machine → Option FileNode
  dest d m = lookup d.dest_path m.files

  abbrev snap : ArtifactDescriptor → Machine → Option FileNode
  snap d m = lookup (snapshot_name env d.dest_path) m.snapshots

  -- A result that is told of the machine before and after.
  abbrev pub Tells : Machine → Machine → ArtifactDescriptor → ArtifactResult → Type 0
  Tells before after d r =
      (r.id ≡ d.id)
      × Told d before.host_bin r r.status (dest d before) (dest d after) (snap d after)

  -- One result for each artifact, in the order of the table.
  abbrev pub AllTell : Machine → Machine → List ArtifactDescriptor → List ArtifactResult → Type 0
  AllTell before after [] [] = Unit
  AllTell before after [] (r ∷ rs) = Empty
  AllTell before after (d ∷ ds) [] = Empty
  AllTell before after (d ∷ ds) (r ∷ rs) = Tells before after d r × AllTell before after ds rs

  -- Nothing but the own file and the own snapshot is touched.
  pub record Frame (d : ArtifactDescriptor) (before after : Machine) : Type 0 where
    pub mount : after.host_bin ≡ before.host_bin
    pub other_files : (p : String) → d.dest_path ≢ p → lookup p after.files ≡ lookup p before.files
    pub other_snapshots :
        (q : String)
        → snapshot_name env d.dest_path ≢ q
        → lookup q after.snapshots ≡ lookup q before.snapshots

  -- What raises an error: the file was there, and it cannot be read, or not be copied.
  abbrev pub Blamed : ArtifactDescriptor → (old : Option FileNode) → String → Type 0
  Blamed d old e =
      (f : FileNode) × (old ≡ some f)
      × ((env.read_fault d.dest_path ≡ some e)
          ⊎ ((left : Option FileNode) × (env.copy_fault d.dest_path ≡ copy_fails left e)))

  abbrev pub Ends : ArtifactDescriptor → Machine → Machine × Ended ArtifactResult → Type 0
  Ends d before (after, raised e) = Frame d before after × Blamed d (dest d before) e
  Ends d before (after, returned r) = Frame d before after × Tells before after d r

  Frame-refl : (d : ArtifactDescriptor) (m : Machine) → Frame d m m
  Frame-refl d m = record { mount = refl; other_files = λ p h. refl; other_snapshots = λ q h. refl }

  Frame-placed :
      (d : ArtifactDescriptor) (body : String) (before m : Machine)
      → Frame d before m
      → Frame d before (placed d body m)
  Frame-placed d body before m f = record {
    mount = f.mount;
    other_files = λ p h. lookup-insert_ne d.dest_path p (node d body) m.files h ∙ f.other_files p h;
    other_snapshots = f.other_snapshots;
  }

  Frame-snapshot :
      (d : ArtifactDescriptor) (f : FileNode) (m : Machine)
      → Frame d m (record m { snapshots = insert (snapshot_name env d.dest_path) f m.snapshots })
  Frame-snapshot d f m = record {
    mount = refl;
    other_files = λ p h. refl;
    other_snapshots = λ q h. lookup-insert_ne (snapshot_name env d.dest_path) q f m.snapshots h;
  }

  module _ (d : ArtifactDescriptor) (body : String) where
    written-Ends :
        (before m : Machine) (path : Option String) (w : WriteFault)
        → fetch_artifact env d.remote_path ≡ got body
        → Frame d before m
        → dest d m ≡ dest d before
        → Kept d path (dest d before) (snap d m)
        → Ends d before (written env d body path w m)
    unfolding written
    written-Ends before m path writes e f same k = (
      Frame-placed d body before m f,
      (refl, (body, e, lookup-insert_self d.dest_path (node d body) m.files, refl, k)),
    )
    written-Ends before m path (before_rename left x) e f same k = (
      record { mount = f.mount; other_files = f.other_files; other_snapshots = f.other_snapshots },
      (refl, (body, e, inl same, k)),
    )
    written-Ends before m path (after_rename x) e f same k = (
      Frame-placed d body before m f,
      (refl, (body, e, inr (lookup-insert_self d.dest_path (node d body) m.files), k)),
    )

    copied-Ends :
        (m : Machine) (f : FileNode) (c : CopyFault)
        → fetch_artifact env d.remote_path ≡ got body
        → dest d m ≡ some f
        → env.copy_fault d.dest_path ≡ c
        → Ends d m (after_snapshot env d body (copy_into env d.dest_path f c m))
    unfolding after_snapshot copy_into left_behind
    copied-Ends m f copies e there c =
        written-Ends m
          (record m { snapshots = insert (snapshot_name env d.dest_path) f m.snapshots })
          (some (snapshot_name env d.dest_path)) (env.write_fault d.dest_path) e
          (Frame-snapshot d f m) refl
          (rw there (refl, lookup-insert_self (snapshot_name env d.dest_path) f m.snapshots))
    copied-Ends m f (copy_fails none x) e there c = (Frame-refl d m, (f, there, inr (none, c)))
    copied-Ends m f (copy_fails (some g) x) e there c =
        (Frame-snapshot d g m, (f, there, inr (some g, c)))

    replace-Ends :
        (m : Machine)
        → fetch_artifact env d.remote_path ≡ got body
        → Ends d m (replace env d body m)
    unfolding replace snapshot_if_exists
    replace-Ends m e = by_file (dest d m) refl
      where
        by_file :
            (o : Option FileNode)
            → dest d m ≡ o
            → Ends d m (after_snapshot env d body (snapshot_of env d.dest_path o m))
        by_file none there =
            written-Ends m m none (env.write_fault d.dest_path) e (Frame-refl d m) refl
              (rw there refl)
        by_file (some f) there = copied-Ends m f (env.copy_fault d.dest_path) e there refl

    compare-Ends :
        (m : Machine) (f : FileNode) (fault : Option String)
        → fetch_artifact env d.remote_path ≡ got body
        → dest d m ≡ some f
        → env.read_fault d.dest_path ≡ fault
        → Ends d m (compare_with env d body f fault m)
    unfolding compare_with
    compare-Ends m f (some x) e there c = (Frame-refl d m, (f, there, inl c))
    compare-Ends m f none e there c =
        pick (str_eq (env.hash f.body) (env.hash body))
          (λ h. ground (eq_iff (env.hash f.body) (env.hash body), h, arith))
      where
        pick :
            (b : Bool)
            → (b ≡ true → env.hash f.body ≡ env.hash body)
            → Ends d m (
                if b
                then (m, returned (result d unchanged (some (env.hash body)) none none))
                else replace env d body m)
        pick true h = (Frame-refl d m, (refl, (body, f, e, there, there, h refl, refl)))
        pick false h = replace-Ends m e

    against-Ends :
        (m : Machine) (o : Option FileNode)
        → fetch_artifact env d.remote_path ≡ got body
        → dest d m ≡ o
        → Ends d m (against env d body o m)
    unfolding against
    against-Ends m none e there = replace-Ends m e
    against-Ends m (some f) e there = compare-Ends m f (env.read_fault d.dest_path) e there refl

  fetched-Ends :
      (d : ArtifactDescriptor) (m : Machine) (f : Fetched)
      → fetch_artifact env d.remote_path ≡ f
      → Ends d m (after_fetch env d f m)
  unfolding after_fetch
  fetched-Ends d m (got body) e = against-Ends d body m (dest d m) e refl
  fetched-Ends d m (threw x) e = (Frame-refl d m, (refl, (x, e, refl)))

  kind_of_script : (k : ArtifactKind) → is_host_script k ≡ true → k ≡ host_script
  kind_of_script host_script h = refl
  kind_of_script quadlet_template h = cc
  kind_of_script detect_script h = cc

  pub refresh_one-Ends : (d : ArtifactDescriptor) (m : Machine) → Ends d m (refresh_one env d m)
  unfolding refresh_one
  refresh_one-Ends d m = elim (Bool-cases (is_host_script d.kind && not m.host_bin)) [
    | inl e ↦ rw e (
      Frame-refl d m,
      (refl, (kind_of_script d.kind (ground (e, arith)), ground (e, arith), refl)),
    )
    | inr e ↦ rw e (fetched-Ends d m (fetch_artifact env d.remote_path) refl)
  ]
