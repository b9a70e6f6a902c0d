-- ===== src/Drift/Store/Examples.antt =====
-- The store at concrete files.
use signalk_doctor_server.Common.{◌≡◌, refl, ◌⊎◌, false, true, Option, none, some, [], ◌∷◌, String}
use signalk_doctor_server.Common.Json.{Json, null, str, bool, arr, nil, obj, field, end}
use signalk_doctor_server.Drift.Types.{DriftPackage, DriftReport, minor, unreachable}
use signalk_doctor_server.Drift.Store.{
  no_write, Files, loaded, ill_typed, nothing, report_json, save_drift_report, load_drift_report,
  read_report,
}
use signalk_doctor_server.Drift.Store.RoundTrip.{load-save}

abbrev charts : DriftPackage
charts = record {
  name = "charts";
  image = none;
  data_dir = some (record { installed = "1.2.0"; classification = minor });
  latest = some "1.3.0";
  etag = none;
  last_fetched_at = some "t0";
}

abbrev report : DriftReport
report = record {
  signalk_image_tag = some "2.9.0";
  last_scanned_at = "t1";
  last_successful_scan_at = none;
  online = true;
  last_fetch_error = some (record { reason = unreachable; detail = "no socket" });
  packages = charts ∷ [];
}

abbrev parse_one : String → Option Json
parse_one s = some (report_json report)

abbrev stringify_one : Json → String
stringify_one j = "{...}"

abbrev old_files : Files
old_files = record { main = some "old"; tmp = none }

load-save_example :
    let (after, succeeded) = save_drift_report stringify_one (no_write "{..") report old_files in
    (load_drift_report parse_one after.main ≡ loaded report)
    ⊎ ((succeeded ≡ false) × (after.main ≡ some "old"))
load-save_example =
    load-save parse_one stringify_one report (no_write "{..") old_files refl (refl, tt)

-- A hand-edited reason with a name that every object inherits is not discarded.
abbrev edited : String → Json
edited reason = obj (
    field "signalkImageTag" null (
      field "lastScannedAt" (str "t1") (
        field "lastSuccessfulScanAt" null (
          field "online" (bool false) (
            field "lastFetchError" (obj (field "reason" (str reason) (field "detail" (str "") end)))
              (field "packages" (arr nil) end))))))

abbrev without_error : DriftReport
without_error = record {
  signalk_image_tag = none;
  last_scanned_at = "t1";
  last_successful_scan_at = none;
  online = false;
  last_fetch_error = none;
  packages = [];
}

typo_discarded : read_report (edited "unreachabel") ≡ nothing
unfolding read_report signalk_doctor_server.Common.Json.get_field
typo_discarded = refl

inherited_kept : read_report (edited "toString") ≡ ill_typed without_error
unfolding read_report signalk_doctor_server.Common.Json.get_field
inherited_kept = refl
