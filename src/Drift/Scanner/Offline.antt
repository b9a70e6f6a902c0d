-- ===== src/Drift/Scanner/Offline.antt =====
-- A scan without a network keeps what the last good scan found.
use signalk_doctor_server.Common.{
  ◌≡◌, refl, ap, map, ◌∙◌, subst, Bool, false, ◌||◌, if◌then◌else◌, Option, none, some, List, [],
  ◌∷◌, String, arith, All, option_bind,
}
use signalk_doctor_server.Drift.Types.{DriftPackage, DriftReport}
use signalk_doctor_server.Drift.Registry.{
  NpmRegistryResult, fetched, not_modified, offline, registry_error,
}
use signalk_doctor_server.Drift.Scanner.{
  InstalledPackage, InstalledResult, read, not_read, prior_entry, prior_latest, prior_etag,
  build_package_entry, ScanOutcome, scanned, ScanDeps, base_report, packages_of, scan_packages,
  unread_report, fresh_report, finish, after_read, run_drift_scan, is_online, last_success,
  tag_changed, read_running_signalk_image,
}

-- The entry has the registry's side of the prior report's entry for that name.
abbrev pub IsCarried : Option DriftReport → DriftPackage → Type 0
IsCarried base p =
    let prior = prior_entry base p.name in
    (p.latest ≡ prior_latest prior)
    × (p.etag ≡ prior_etag prior)
    × (p.last_fetched_at ≡ option_bind prior (λ q. q.last_fetched_at))

build_package_entry-IsCarried :
    (base : Option DriftReport) (installed : InstalledPackage) (r : NpmRegistryResult)
    (now : String)
    → is_online r ≡ false
    → IsCarried base (build_package_entry installed r (prior_entry base installed.name) now)
unfolding build_package_entry
build_package_entry-IsCarried base installed (fetched v etag) now h = cc
build_package_entry-IsCarried base installed (not_modified etag) now h = cc
build_package_entry-IsCarried base installed (offline d) now h = (refl, refl, refl)
build_package_entry-IsCarried base installed (registry_error d) now h = (refl, refl, refl)

left_false : (a b : Bool) → (a || b) ≡ false → a ≡ false
left_false a b h = ground arith

right_false : (a b : Bool) → (a || b) ≡ false → b ≡ false
right_false a b h = ground arith

-- Where the container could not be read the list itself stays, else there is an entry for each
-- installed package, in order, and each carries the registry's side.
abbrev IsKept : Option DriftReport → InstalledResult → List DriftPackage → Type 0
IsKept base (not_read reason detail) packages = packages ≡ packages_of base
IsKept base (read installed) packages =
    (map (λ p. p.name) packages ≡ map (λ i. i.name) installed) × All (IsCarried base) packages

-- What an offline scan leaves of the prior report.
abbrev pub Keeps : Option DriftReport → InstalledResult → DriftReport → Type 0
Keeps base installed r =
    (r.last_successful_scan_at ≡ last_success base) × IsKept base installed r.packages

build_package_entry-name :
    (installed : InstalledPackage) (r : NpmRegistryResult) (prior : Option DriftPackage)
    (now : String)
    → (build_package_entry installed r prior now).name ≡ installed.name
unfolding build_package_entry
build_package_entry-name installed (fetched v etag) prior now = refl
build_package_entry-name installed (not_modified etag) prior now = refl
build_package_entry-name installed (offline d) prior now = refl
build_package_entry-name installed (registry_error d) prior now = refl

module _ {W : Type 0} (deps : ScanDeps W) (now : String) where
  scan_packages-IsCarried :
      (base : Option DriftReport) (installed : List InstalledPackage) (w : W)
      → (scan_packages deps now base installed w).0.1 ≡ false
      → All (IsCarried base) (scan_packages deps now base installed w).0.0
  unfolding scan_packages
  scan_packages-IsCarried base [] w h = tt
  scan_packages-IsCarried base (i ∷ rest) w h =
      let fetch = deps.get_latest i.name (prior_etag (prior_entry base i.name)) w in
      let online = is_online fetch.0 in
      let later = (scan_packages deps now base rest fetch.1).0.1 in
      (
        build_package_entry-IsCarried base i fetch.0 now (left_false online later h),
        scan_packages-IsCarried base rest fetch.1 (right_false online later h),
      )

  map-scan_packages :
      (base : Option DriftReport) (installed : List InstalledPackage) (w : W)
      → map (λ p. p.name) (scan_packages deps now base installed w).0.0
        ≡ map (λ i. i.name) installed
  unfolding scan_packages
  map-scan_packages base [] w = refl
  map-scan_packages base (i ∷ rest) w =
      let prior = prior_entry base i.name in
      let (registry, w') = deps.get_latest i.name (prior_etag prior) w in
      let here = build_package_entry-name i registry prior now in
      let later = map-scan_packages base rest w' in rw here (rw later refl)

  finished :
      (P : ScanOutcome → Type 0) (o : ScanOutcome) (r : Option String × W) (x : ScanOutcome)
      → (finish deps now o r).0 ≡ scanned x
      → P o
      → P x
  unfolding finish
  finished P o (none, w) x e h = let same : o ≡ x = cc in subst P same h
  finished P o (some error, w) x e h = cc

  after_read-Keeps :
      (base : Option DriftReport) (tag : Option String) (installed : InstalledResult) (w : W)
      (o : ScanOutcome)
      → (after_read deps now base tag installed w).0 ≡ scanned o
      → o.online ≡ false
      → Keeps base installed o.report
  unfolding after_read unread_report fresh_report
  after_read-Keeps base tag (not_read reason detail) w o e off =
      let report = unread_report deps now base tag reason detail in
      finished (λ x. x.online ≡ false → Keeps base (not_read reason detail) x.report) _
        (deps.save_report report w) o e (λ _. (refl, refl)) off
  after_read-Keeps base tag (read installed) w o e off =
      let ((packages, online), w') = scan_packages deps now base installed w in
      let report = fresh_report deps now base tag packages online in
      finished (λ x. x.online ≡ false → Keeps base (read installed) x.report) _
        (deps.save_report report w') o e
        (λ none_online. (
          ap (λ b. if b then some now else last_success base) none_online,
          (
            map-scan_packages base installed w,
            scan_packages-IsCarried base installed w none_online,
          ),
        ))
        off

  -- A scan that reaches no registry loses nothing: unless the image is known to have changed, the
  -- time of the last success stays, and the packages are the prior ones where the container cannot
  -- be read, else exactly one for each installed package, in order and under its name, with the
  -- latest version, the etag and the fetch time of the prior entry of that name.
  -- A server that cannot be inspected is no change of image.
  pub run_drift_scan-Keeps :
      (w : W) (prior : DriftReport) (o : ScanOutcome)
      → (deps.load_report w).0 ≡ some prior
      → tag_changed prior.signalk_image_tag
          (read_running_signalk_image (deps.inspect_server (deps.load_report w).1).0)
        ≡ false
      → (run_drift_scan deps now w).0 ≡ scanned o
      → o.online ≡ false
      → Keeps
          (some prior)
          (deps.read_installed (deps.inspect_server (deps.load_report w).1).1).0
          o.report
  unfolding run_drift_scan base_report
  run_drift_scan-Keeps w prior o is same e off =
      let (info, w2) = deps.inspect_server (deps.load_report w).1 in
      let tag = read_running_signalk_image info in
      let (installed, w3) = deps.read_installed w2 in
      let base : base_report (deps.load_report w).0 tag ≡ some prior =
        ap (λ l. base_report l tag) is ∙ ap (λ b. if b then none else some prior) same in
      subst (λ l. Keeps l installed o.report) base
        (after_read-Keeps (base_report (deps.load_report w).0 tag) tag installed w3 o e off)
