-- ===== src/Drift/Scanner/Examples.antt =====
-- A scan at a concrete world: one package, and a registry that answers or does not.
use signalk_doctor_server.Common.{
  ℕ, ◌≡◌, refl, true, false, Option, none, some, [], ◌∷◌, String, All,
}
use signalk_doctor_server.Drift.Types.{DriftPackage, DriftReport, minor}
use signalk_doctor_server.Drift.Classify.{classify, parse, classify_parsed}
use signalk_doctor_server.Drift.Registry.{
  Response, no_answer, answer, unreadable, get_latest_version,
}
use signalk_doctor_server.Drift.Registry.Echo.{get_latest_version-IsEcho}
use signalk_doctor_server.Drift.Scanner.{
  read, ScanOutcome, scanned, ScanDeps, run_drift_scan, after_read, base_report, scan_packages,
  fresh_report, finish, prior_entry, build_package_entry, classify_location,
  read_running_signalk_image,
}
use signalk_doctor_server.Drift.Scanner.Invariant.{
  IsSound, IsCurrent, Reports, run_drift_scan-IsSound,
}
use signalk_doctor_server.Drift.Scanner.Offline.{Keeps, run_drift_scan-Keeps}

abbrev charts : DriftPackage
charts = record {
  name = "charts";
  image = none;
  data_dir = some (record { installed = "1.2.0"; classification = minor });
  latest = some "1.3.0";
  etag = some "e1";
  last_fetched_at = some "t0";
}

abbrev prior : DriftReport
prior = record {
  signalk_image_tag = some "2.9.0";
  last_scanned_at = "t0";
  last_successful_scan_at = some "t0";
  online = true;
  last_fetch_error = none;
  packages = charts ∷ [];
}

abbrev digits : ℕ → String
digits n = ""

abbrev url_of : String → String
url_of name = name

-- The world is the stored report; the registry answers 304, or is out of reach.
abbrev deps_with : Response → ScanDeps (Option DriftReport)
deps_with response = record {
  load_report = λ w. (w, w);
  inspect_server = λ w. (none, w);
  read_installed =
      λ w. (read (record { name = "charts"; image = none; data_dir = some "1.2.0" } ∷ []), w);
  get_latest = get_latest_version digits (λ url etag w. (response, w)) url_of;
  save_report = λ r w. (none, some r);
}

-- The one etag that this registry gave out.
abbrev Stands : String → String → String → Type 0
Stands name etag version = (name ≡ "charts") × (etag ≡ "e1") × (version ≡ "1.3.0")

charts-IsSound : IsSound Stands charts
unfolding classify_location classify parse classify_parsed
charts-IsSound = (λ e k. ("1.3.0", refl, (refl, cc, refl)), refl, refl)

get_latest-IsCurrent :
    (name : String) (previous : Option String) (w : Option DriftReport)
    → IsCurrent Stands name
        (get_latest_version digits
          (λ url etag w. (answer 304 none (unreadable ""), w))
          url_of
          name
          previous
          w).0
unfolding get_latest_version
get_latest-IsCurrent name previous w = tt

run_drift_scan-IsSound_example :
    Reports
      (λ r. All (IsSound Stands) r.packages)
      (run_drift_scan (deps_with (answer 304 none (unreadable ""))) "t1" (some prior)).0
run_drift_scan-IsSound_example =
    run_drift_scan-IsSound Stands (deps_with (answer 304 none (unreadable ""))) "t1" (some prior)
      (λ name previous w. (
        get_latest_version-IsEcho digits (λ url etag w. (answer 304 none (unreadable ""), w)) url_of
            name previous w,
        get_latest-IsCurrent name previous w,
      ))
      (charts-IsSound, tt)

abbrev offline_outcome : ScanOutcome
offline_outcome = record {
  report = record {
    signalk_image_tag = none;
    last_scanned_at = "t1";
    last_successful_scan_at = some "t0";
    online = false;
    last_fetch_error = none;
    packages = charts ∷ [];
  };
  online = false;
  installed_fetch_error = none;
}

offline_scan :
    (run_drift_scan (deps_with (no_answer "ENOTFOUND")) "t1" (some prior)).0
    ≡ scanned offline_outcome
unfolding run_drift_scan after_read base_report scan_packages fresh_report finish prior_entry
    build_package_entry classify_location classify parse classify_parsed read_running_signalk_image
    get_latest_version
offline_scan = refl

run_drift_scan-Keeps_example :
    Keeps
      (some prior)
      (read (record { name = "charts"; image = none; data_dir = some "1.2.0" } ∷ []))
      offline_outcome.report
unfolding read_running_signalk_image
run_drift_scan-Keeps_example =
    run_drift_scan-Keeps (deps_with (no_answer "ENOTFOUND")) "t1" (some prior) prior offline_outcome
      refl refl offline_scan refl
