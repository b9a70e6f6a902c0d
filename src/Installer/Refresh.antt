-- ===== src/Installer/Refresh.antt =====
-- A whole refresh: each result stays true to the end, as no artifact touches another's files.
use signalk_doctor_server.Common.{
  ℕ, ◌+◌, ◌≡◌, ◌≢◌, refl, sym, ap, ◌∙◌, subst, Bool, true, false, ◌||◌, Option, List, [], ◌∷◌,
  String, str_eq, eq_iff, arith, ◌==◌, any, inl, inr, In, filter, length, map,
}
use signalk_doctor_server.Common.Text.{apart}
use signalk_doctor_server.Common.Maps.{lookup}
use signalk_doctor_server.Installer.Artifacts.{ArtifactDescriptor, artifacts}
use signalk_doctor_server.Installer.{
  ArtifactStatus, updated, unchanged, mount_missing, fetch_failed, write_failed, ArtifactResult,
  FileNode, Machine, Env, snapshot_name, Ended, returned, raised, refresh_one, cons_result,
  and_then, refresh_all, Counts, bump, count_all, no_counts, RefreshSummary, summarize,
  refresh_installer,
}
use signalk_doctor_server.Installer.Told.{
  Told, Tells, AllTell, Frame, Blamed, Ends, refresh_one-Ends,
}

abbrev pub dests : List ArtifactDescriptor → List String
dests = map λ d. d.dest_path

module _ (env : Env) where
  abbrev pub snaps : List ArtifactDescriptor → List String
  snaps = map λ d. snapshot_name env d.dest_path

  pub record FrameAll (ds : List ArtifactDescriptor) (before after : Machine) : Type 0 where
    pub mount : after.host_bin ≡ before.host_bin
    pub other_files :
        (p : String)
        → any (str_eq p) (dests ds) ≡ false
        → lookup p after.files ≡ lookup p before.files
    pub other_snapshots :
        (q : String)
        → any (str_eq q) (snaps ds) ≡ false
        → lookup q after.snapshots ≡ lookup q before.snapshots

  -- One of the artifacts is to blame, by its file from before the refresh.
  abbrev pub SomeBlamed : List ArtifactDescriptor → Machine → String → Type 0
  SomeBlamed ds before e =
      (d : ArtifactDescriptor) × In d ds × Blamed env d (lookup d.dest_path before.files) e

  abbrev AllEnds :
      List ArtifactDescriptor → Machine → Machine × Ended (List ArtifactResult) → Type 0
  AllEnds ds before (after, raised e) = FrameAll ds before after × SomeBlamed ds before e
  AllEnds ds before (after, returned rs) = FrameAll ds before after × AllTell env before after ds rs

  Told-at :
      (d : ArtifactDescriptor) (b b' : Bool) (r : ArtifactResult) (s : ArtifactStatus)
      (o o' n n' k k' : Option FileNode)
      → b ≡ b'
      → o ≡ o'
      → n ≡ n'
      → k ≡ k'
      → Told env d b r s o n k
      → Told env d b' r s o' n' k'
  Told-at d b b' r s o o' n n' k k' eb eo en ek h =
      subst (λ x. Told env d x r s o' n' k') eb
        (subst (λ x. Told env d b r s x n' k') eo
          (subst (λ x. Told env d b r s o x k') en (subst (λ x. Told env d b r s o n x) ek h)))

  ne_of_apart : (p q : String) (b : Bool) → str_eq q p || b ≡ false → p ≢ q
  ne_of_apart p q b h e = ground (eq_iff q p, h, e, arith)

  ne_of_listed : (p q : String) (b : Bool) → str_eq p q || b ≡ false → p ≢ q
  ne_of_listed p q b h e = ground (eq_iff p q, h, e, arith)

  Frame-then :
      (d : ArtifactDescriptor) (ds : List ArtifactDescriptor) (a b c : Machine)
      → Frame env d a b
      → FrameAll ds b c
      → FrameAll (d ∷ ds) a c
  Frame-then d ds a b c f g = record {
    mount = g.mount ∙ f.mount;
    other_files = λ p h.
        g.other_files p (ground (h, arith))
        ∙ f.other_files p (ne_of_apart d.dest_path p (any (str_eq p) (dests ds)) h);
    other_snapshots = λ q h.
        g.other_snapshots q (ground (h, arith))
        ∙ f.other_snapshots q
            (ne_of_apart (snapshot_name env d.dest_path) q (any (str_eq q) (snaps ds)) h);
  }

  FrameAll-refl : (ds : List ArtifactDescriptor) (m : Machine) → FrameAll ds m m
  FrameAll-refl ds m = record {
    mount = refl;
    other_files = λ p h. refl;
    other_snapshots = λ q h. refl;
  }

  -- What was told since a later start holds since an earlier one.
  from_earlier :
      (d : ArtifactDescriptor) (ds : List ArtifactDescriptor) (rs : List ArtifactResult)
      (a b c : Machine)
      → Frame env d a b
      → any (str_eq d.dest_path) (dests ds) ≡ false
      → AllTell env b c ds rs
      → AllTell env a c ds rs
  from_earlier d [] [] a b c f h t = tt
  from_earlier d [] (r ∷ rs) a b c f h t = elim t [ ]
  from_earlier d (e ∷ ds) [] a b c f h t = elim t [ ]
  from_earlier d (e ∷ ds) (r ∷ rs) a b c f h ((same, t), ts) = (
    (
      same,
      Told-at e b.host_bin a.host_bin r r.status (lookup e.dest_path b.files)
          (lookup e.dest_path a.files) (lookup e.dest_path c.files) (lookup e.dest_path c.files)
          (lookup (snapshot_name env e.dest_path) c.snapshots)
          (lookup (snapshot_name env e.dest_path) c.snapshots) f.mount
          (f.other_files e.dest_path
            (ne_of_listed d.dest_path e.dest_path (any (str_eq d.dest_path) (dests ds)) h))
          refl refl t,
    ),
    from_earlier d ds rs a b c f (ground (h, arith)) ts,
  )

  -- What was told up to an earlier end holds up to a later one.
  to_later :
      (d : ArtifactDescriptor) (ds : List ArtifactDescriptor) (r : ArtifactResult) (a b c : Machine)
      → FrameAll ds b c
      → any (str_eq d.dest_path) (dests ds) ≡ false
      → any (str_eq (snapshot_name env d.dest_path)) (snaps ds) ≡ false
      → Tells env a b d r
      → Tells env a c d r
  to_later d ds r a b c f h k (same, t) = (
    same,
    Told-at d a.host_bin a.host_bin r r.status (lookup d.dest_path a.files)
        (lookup d.dest_path a.files) (lookup d.dest_path b.files) (lookup d.dest_path c.files)
        (lookup (snapshot_name env d.dest_path) b.snapshots)
        (lookup (snapshot_name env d.dest_path) c.snapshots) refl refl
        (sym (f.other_files d.dest_path h))
        (sym (f.other_snapshots (snapshot_name env d.dest_path) k)) t,
  )

  blamed_earlier :
      (d : ArtifactDescriptor) (ds : List ArtifactDescriptor) (a b : Machine) (e : String)
      → Frame env d a b
      → any (str_eq d.dest_path) (dests ds) ≡ false
      → SomeBlamed ds b e
      → SomeBlamed ds a e
  blamed_earlier d ds a b e f h (g, m, blame) =
      (g, m, subst (λ o. Blamed env g o e) (f.other_files g.dest_path (not_listed ds m h)) blame)
    where
      not_listed :
          (es : List ArtifactDescriptor)
          → In g es
          → any (str_eq d.dest_path) (dests es) ≡ false
          → d.dest_path ≢ g.dest_path
      not_listed [] m k = elim m [ ]
      not_listed (x ∷ es) (inl q) k = λ same.
          ne_of_listed d.dest_path x.dest_path (any (str_eq d.dest_path) (dests es)) k
            (same ∙ ap (λ y. y.dest_path) q)
      not_listed (x ∷ es) (inr m) k = not_listed es m (ground (k, arith))

  refresh_all-AllEnds :
      (ds : List ArtifactDescriptor) (m : Machine)
      → apart (dests ds) ≡ true
      → apart (snaps ds) ≡ true
      → AllEnds ds m (refresh_all env ds m)
  unfolding refresh_all and_then cons_result
  refresh_all-AllEnds [] m h k = (FrameAll-refl [] m, tt)
  refresh_all-AllEnds (d ∷ ds) m h k =
      first (refresh_one env d m) (refresh_one-Ends env d m)
        (λ b. refresh_all-AllEnds ds b (ground (h, arith)) (ground (k, arith)))
    where
      rest :
          (r : ArtifactResult) (b : Machine) (x : Machine × Ended (List ArtifactResult))
          → Frame env d m b
          → Tells env m b d r
          → AllEnds ds b x
          → AllEnds (d ∷ ds) m (cons_result r x)
      rest r b (c, raised e) f t (g, blame) =
          let (x, i, at) = blamed_earlier d ds m b e f (ground (h, arith)) blame in
          (Frame-then d ds m b c f g, (x, inr i, at))
      rest r b (c, returned rs) f t (g, ts) = (
        Frame-then d ds m b c f g,
        (
          to_later d ds r m b c g (ground (h, arith)) (ground (k, arith)) t,
          from_earlier d ds rs m b c f (ground (h, arith)) ts,
        ),
      )

      first :
          (x : Machine × Ended ArtifactResult)
          → Ends env d m x
          → ((b : Machine) → AllEnds ds b (refresh_all env ds b))
          → AllEnds (d ∷ ds) m (and_then (refresh_all env ds) x)
      first (b, raised e) (f, blame) ih =
          (Frame-then d ds m b b f (FrameAll-refl ds b), (d, inl refl, blame))
      first (b, returned r) (f, t) ih = rest r b (refresh_all env ds b) f t (ih b)

abbrev index : ArtifactStatus → ℕ
index updated = 0
index unchanged = 1
index mount_missing = 2
index fetch_failed = 3
index write_failed = 4

-- How many results have a status.
abbrev pub tally : ArtifactStatus → List ArtifactResult → ℕ
tally s rs = length (filter (λ r. index r.status == index s) rs)

abbrev pub Counted : List ArtifactResult → Counts → Type 0
Counted rs c =
    (c.updated_count ≡ tally updated rs)
    × (c.unchanged_count ≡ tally unchanged rs)
    × (c.mount_missing_count ≡ tally mount_missing rs)
    × (c.fetch_failed_count ≡ tally fetch_failed rs)
    × (c.write_failed_count ≡ tally write_failed rs)

abbrev Added : List ArtifactResult → Counts → Counts → Type 0
Added rs c d =
    (d.updated_count ≡ c.updated_count + tally updated rs)
    × (d.unchanged_count ≡ c.unchanged_count + tally unchanged rs)
    × (d.mount_missing_count ≡ c.mount_missing_count + tally mount_missing rs)
    × (d.fetch_failed_count ≡ c.fetch_failed_count + tally fetch_failed rs)
    × (d.write_failed_count ≡ c.write_failed_count + tally write_failed rs)

bump-Added :
    (r : ArtifactResult) (rs : List ArtifactResult) (c d : Counts) (s : ArtifactStatus)
    → r.status ≡ s
    → Added rs (bump s c) d
    → Added (r ∷ rs) c d
bump-Added r rs c d updated e h = rw e (omega arith)
bump-Added r rs c d unchanged e h = rw e (omega arith)
bump-Added r rs c d mount_missing e h = rw e (omega arith)
bump-Added r rs c d fetch_failed e h = rw e (omega arith)
bump-Added r rs c d write_failed e h = rw e (omega arith)

count_all-Added : (rs : List ArtifactResult) (c : Counts) → Added rs c (count_all rs c)
unfolding count_all
count_all-Added [] c = omega arith
count_all-Added (r ∷ rs) c =
    bump-Added r rs c (count_all rs (bump r.status c)) r.status refl
      (count_all-Added rs (bump r.status c))

module _ (env : Env) where
  -- What a refresh reports: for each artifact, in order, what became of it, and the counts. An
  -- error that is raised comes from an artifact's file that was there and could not be read or
  -- copied.
  abbrev pub Reported : Machine → Machine × Ended RefreshSummary → Type 0
  Reported before (after, raised e) =
      FrameAll env (artifacts env.settings) before after
      × SomeBlamed env (artifacts env.settings) before e
  Reported before (after, returned s) =
      FrameAll env (artifacts env.settings) before after
      × AllTell env before after (artifacts env.settings) s.results
      × Counted s.results s.counts

  -- Every result of a refresh is true of the files before and after it, whatever fails: an
  -- artifact that is updated has exactly the fetched bytes and mode, one that could not be written
  -- has the old or the new file, both with the old content kept under the snapshot that is named,
  -- and every other file is as it was, temporary ones that are left behind apart. The results stand
  -- in the order of the table, each is counted once, and an error is raised only where an artifact's
  -- file was there and cannot be read or copied. A write that is shorter than it should be reports
  -- an error. No two artifacts share a destination or a snapshot.
  pub refresh_installer-Reported :
      (started finished : String) (m : Machine)
      → apart (dests (artifacts env.settings)) ≡ true
      → apart (snaps env (artifacts env.settings)) ≡ true
      → Reported m (refresh_installer env started finished m)
  unfolding refresh_installer
  refresh_installer-Reported started finished m h k =
      by_end (refresh_all env (artifacts env.settings) m)
        (refresh_all-AllEnds env (artifacts env.settings) m h k)
    where
      by_end :
          (x : Machine × Ended (List ArtifactResult))
          → AllEnds env (artifacts env.settings) m x
          → Reported m (let (after, ended) = x in (after, summarize env started finished ended))
      by_end (after, raised e) (f, blame) = (f, blame)
      by_end (after, returned rs) (f, ts) = (f, ts, omega (arith, count_all-Added rs no_counts))
