-- ===== src/Drift/Scanner.antt =====
-- src/drift/scanner.ts: one scan of the tracked packages against the registry. The store, the
-- container reads and the registry act on a world `W`; the wait between two requests is left out.
mod Examples
pub mod Invariant
pub mod Offline
use signalk_doctor_server.Common.{
  Bool, true, false, ◌||◌, not, Option, none, some, List, [], ◌∷◌, String, str_eq, ◌^^◌,
  if◌then◌else◌, find, option_bind,
}
use signalk_doctor_server.Drift.Types.{
  DriftClassification, unknown, DriftLocation, DriftPackage, DriftFetchReason, unreachable, runtime,
  DriftReport,
}
use signalk_doctor_server.Drift.Classify.{classify}
use signalk_doctor_server.Drift.Registry.{
  NpmRegistryResult, fetched, not_modified, offline, registry_error,
}

-- What `inspect()` of signalk-server gives; the fields may be absent.
pub record Inspected : Type 0 where
  pub image : Option String
  pub image_name : Option String
  pub config_image : Option String

-- No runtime and a failed inspection are `none`.
unfoldable pub read_running_signalk_image : Option Inspected → Option String
read_running_signalk_image none = none
read_running_signalk_image (some info) = elim info.image_name [
  | some name ↦ some name
  | none ↦ elim info.config_image [ some name ↦ some name | none ↦ info.image ]
]

pub record InstalledPackage : Type 0 where
  pub name : String
  pub image : Option String
  pub data_dir : Option String

pub data InstalledResult : Type 0 where
  read : List InstalledPackage → InstalledResult
  not_read : DriftFetchReason → (detail : String) → InstalledResult

unfoldable pub prior_entry : Option DriftReport → String → Option DriftPackage
prior_entry report name = option_bind report (λ r. find (λ p. str_eq p.name name) r.packages)

abbrev pub classify_against : String → Option String → DriftClassification
classify_against installed none = unknown
classify_against installed (some latest) = classify installed latest

unfoldable pub classify_location : Option String → Option String → Option DriftLocation
classify_location none latest = none
classify_location (some installed) latest =
    some (record { installed = installed; classification = classify_against installed latest })

abbrev pub prior_latest : Option DriftPackage → Option String
prior_latest prior = option_bind prior (λ p. p.latest)

abbrev pub prior_etag : Option DriftPackage → Option String
prior_etag prior = option_bind prior (λ p. p.etag)

abbrev entry : InstalledPackage → Option String → Option String → Option String → DriftPackage
entry installed latest etag last_fetched_at = record {
  name = installed.name;
  image = classify_location installed.image latest;
  data_dir = classify_location installed.data_dir latest;
  latest = latest;
  etag = etag;
  last_fetched_at = last_fetched_at;
}

abbrev carried : InstalledPackage → Option DriftPackage → DriftPackage
carried installed prior =
    entry installed (prior_latest prior) (prior_etag prior)
      (option_bind prior (λ p. p.last_fetched_at))

unfoldable pub build_package_entry :
    InstalledPackage → NpmRegistryResult → Option DriftPackage → String → DriftPackage
unfolding classify_location
build_package_entry installed (fetched version etag) prior now =
    entry installed (some version) etag (some now)
build_package_entry installed (not_modified etag) prior now =
    entry installed (prior_latest prior) (if str_eq etag "" then prior_etag prior else some etag)
      (some now)
build_package_entry installed (offline detail) prior now = carried installed prior
build_package_entry installed (registry_error detail) prior now = carried installed prior

abbrev pub is_online : NpmRegistryResult → Bool
is_online (fetched version etag) = true
is_online (not_modified etag) = true
is_online (offline detail) = false
is_online (registry_error detail) = false

pub record ScanOutcome : Type 0 where
  pub report : DriftReport
  pub online : Bool
  pub installed_fetch_error : Option String

pub data Scan : Type 0 where
  scanned : ScanOutcome → Scan
  scan_threw : String → Scan

pub record ScanDeps (W : Type 0) : Type 0 where
  pub load_report : W → Option DriftReport × W
  pub inspect_server : W → Option Inspected × W
  pub read_installed : W → InstalledResult × W
  pub get_latest : String → Option String → W → NpmRegistryResult × W
  pub save_report : DriftReport → W → Option String × W

-- `prior?.signalkImageTag != null && newImageTag != null && prior.signalkImageTag !== newImageTag`
abbrev pub tag_changed : Option String → Option String → Bool
tag_changed (some old) (some new) = not (str_eq old new)
tag_changed none new = false
tag_changed (some old) none = false

unfoldable pub base_report : Option DriftReport → Option String → Option DriftReport
base_report none tag = none
base_report (some prior) tag = if tag_changed prior.signalk_image_tag tag then none else some prior

abbrev pub packages_of : Option DriftReport → List DriftPackage
packages_of none = []
packages_of (some r) = r.packages

abbrev pub last_success : Option DriftReport → Option String
last_success base = option_bind base (λ r. r.last_successful_scan_at)

abbrev pub reason_word : DriftFetchReason → String
reason_word unreachable = "unreachable"
reason_word runtime = "runtime"

module _ {W : Type 0} (deps : ScanDeps W) (now : String) where
  -- The loop over the installed packages: the entries, and whether some fetch succeeded.
  unfoldable pub scan_packages :
      Option DriftReport → List InstalledPackage → W → (List DriftPackage × Bool) × W
  unfolding prior_entry build_package_entry
  scan_packages base [] w = (([], false), w)
  scan_packages base (installed ∷ rest) w =
      let prior = prior_entry base installed.name in
      let (registry, w') = deps.get_latest installed.name (prior_etag prior) w in
      let ((more, online), w'') = scan_packages base rest w' in
      ((build_package_entry installed registry prior now ∷ more, is_online registry || online), w'')

  unfoldable pub unread_report :
      Option DriftReport → Option String → DriftFetchReason → String → DriftReport
  unread_report base tag reason detail = record {
    signalk_image_tag = tag;
    last_scanned_at = now;
    last_successful_scan_at = last_success base;
    online = false;
    last_fetch_error = some (record { reason = reason; detail = detail });
    packages = packages_of base;
  }

  unfoldable pub fresh_report :
      Option DriftReport → Option String → List DriftPackage → Bool → DriftReport
  fresh_report base tag packages online = record {
    signalk_image_tag = tag;
    last_scanned_at = now;
    last_successful_scan_at = if online then some now else last_success base;
    online = online;
    last_fetch_error = none;
    packages = packages;
  }

  finish : ScanOutcome → Option String × W → Scan × W
  finish outcome (none, w) = (scanned outcome, w)
  finish outcome (some error, w) = (scan_threw error, w)

  after_read : Option DriftReport → Option String → InstalledResult → W → Scan × W
  unfolding unread_report fresh_report scan_packages finish
  after_read base tag (not_read reason detail) w =
      let report = unread_report base tag reason detail in
      finish
        (record {
          report = report;
          online = false;
          installed_fetch_error = some (reason_word reason ^^ ": " ^^ detail);
        })
        (deps.save_report report w)
  after_read base tag (read installed) w =
      let ((packages, online), w') = scan_packages base installed w in
      let report = fresh_report base tag packages online in
      finish (record { report = report; online = online; installed_fetch_error = none })
        (deps.save_report report w')

  unfoldable pub run_drift_scan : W → Scan × W
  unfolding after_read base_report read_running_signalk_image
  run_drift_scan w =
      let (prior, w1) = deps.load_report w in
      let (info, w2) = deps.inspect_server w1 in
      let tag = read_running_signalk_image info in
      let (installed, w3) = deps.read_installed w2 in
      after_read (base_report prior tag) tag installed w3
