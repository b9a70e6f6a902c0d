-- ===== src/Drift/Store/RoundTrip.antt =====
-- A saved report is loaded as it was.
use signalk_doctor_server.Common.{
  ◌≡◌, refl, ap, ◌⊎◌, inl, inr, false, Option, none, some, List, [], ◌∷◌, String, str_eq, All,
}
use signalk_doctor_server.Common.Json.{Json, items, get_field, as_string, last_field}
use signalk_doctor_server.Drift.Types.{
  DriftClassification, up_to_date, patch, minor, major, prerelease, unknown, DriftLocation,
  DriftPackage, DriftFetchReason, unreachable, runtime, DriftFetchError, DriftReport,
}
use signalk_doctor_server.Drift.Store.{
  classification_name, as_classification, location_json, as_location, location_of, package_json,
  packages_json, migrate_package, migrate_all, package_of, keep, nullable, nullable_json,
  reason_text, reason_on_disk, error_json, fetch_error, error_of, error_with, FetchError, no_error,
  an_error, loaded, report_json, read_report, checked, report_of, with_error, load_drift_report,
  parsed, WriteFault, no_fault, no_open, no_rename, no_dir_sync, no_write, Files, write_atomic,
  save_drift_report,
}

as_classification-name :
    (c : DriftClassification) → as_classification (some (classification_name c)) ≡ c
unfolding as_classification
as_classification-name up_to_date = refl
as_classification-name patch = refl
as_classification-name minor = refl
as_classification-name major = refl
as_classification-name prerelease = refl
as_classification-name unknown = refl

as_location-json : (l : Option DriftLocation) → as_location (some (location_json l)) ≡ l
unfolding as_location location_of get_field last_field
as_location-json none = refl
as_location-json (some l) = rw (as_classification-name l.classification) refl

as_string-nullable : (s : Option String) → as_string (some (nullable_json s)) ≡ s
as_string-nullable none = refl
as_string-nullable (some s) = refl

nullable-json : (s : Option String) → nullable (some (nullable_json s)) ≡ some s
unfolding nullable
nullable-json none = refl
nullable-json (some s) = refl

-- A name that a load keeps.
abbrev pub IsNamed : DriftPackage → Type 0
IsNamed p = str_eq p.name "" ≡ false

migrate_package-json : (p : DriftPackage) → IsNamed p → migrate_package (package_json p) ≡ some p
unfolding migrate_package package_of get_field last_field
migrate_package-json p named = rw named (
    rw (as_location-json p.image) (
      rw (as_location-json p.data_dir) (
        rw (as_string-nullable p.latest)
          (rw (as_string-nullable p.etag) (rw (as_string-nullable p.last_fetched_at) refl)))))

migrate_all-json :
    (ps : List DriftPackage) → All IsNamed ps → migrate_all (items (packages_json ps)) ≡ ps
unfolding migrate_all keep
migrate_all-json [] h = refl
migrate_all-json (p ∷ ps) (named, more) =
    rw (migrate_package-json p named) (ap (λ qs. p ∷ qs) (migrate_all-json ps more))

abbrev as_fetch_error : Option DriftFetchError → FetchError
as_fetch_error none = no_error
as_fetch_error (some e) = an_error e

reason_on_disk-text :
    (r : DriftFetchReason) (detail : String)
    → error_with (reason_on_disk (reason_text r)) detail
      ≡ an_error (record { reason = r; detail = detail })
unfolding reason_on_disk error_with
reason_on_disk-text unreachable detail = refl
reason_on_disk-text runtime detail = refl

fetch_error-json :
    (e : Option DriftFetchError) → fetch_error (some (error_json e)) ≡ as_fetch_error e
unfolding fetch_error error_of get_field last_field
fetch_error-json none = refl
fetch_error-json (some e) = reason_on_disk-text e.reason e.detail

with_error-some :
    (report : Option DriftFetchError → DriftReport) (e : Option DriftFetchError)
    → with_error report (as_fetch_error e) ≡ loaded (report e)
unfolding with_error
with_error-some report none = refl
with_error-some report (some e) = refl

pub read_report-json :
    (r : DriftReport) → All IsNamed r.packages → read_report (report_json r) ≡ loaded r
unfolding read_report checked report_of get_field last_field
read_report-json r named = rw (nullable-json r.signalk_image_tag) (
    rw (nullable-json r.last_successful_scan_at) (
      rw (fetch_error-json r.last_fetch_error) (
        rw (migrate_all-json r.packages named) (
          with_error-some
            (λ e. record {
              signalk_image_tag = r.signalk_image_tag;
              last_scanned_at = r.last_scanned_at;
              last_successful_scan_at = r.last_successful_scan_at;
              online = r.online;
              last_fetch_error = e;
              packages = r.packages;
            })
            r.last_fetch_error))))

module _ (json_parse : String → Option Json) (json_stringify : Json → String) where
  -- A save under any failure leaves a report file that loads as the report that was saved, or,
  -- where the save throws, may leave the old file as it was: no crash of the write tears it. The
  -- packages have names, and JSON.parse reads back what JSON.stringify wrote.
  pub load-save :
      (r : DriftReport) (fault : WriteFault) (files : Files)
      → json_parse (json_stringify (report_json r)) ≡ some (report_json r)
      → All IsNamed r.packages
      → let (after, succeeded) = save_drift_report json_stringify fault r files in
        (load_drift_report json_parse after.main ≡ loaded r)
        ⊎ ((succeeded ≡ false) × (after.main ≡ files.main))
  unfolding save_drift_report write_atomic load_drift_report parsed
  load-save r no_open files back named = inr (refl, refl)
  load-save r (no_write left) files back named = inr (refl, refl)
  load-save r no_rename files back named = inr (refl, refl)
  load-save r no_dir_sync files back named = inl (rw back (read_report-json r named))
  load-save r no_fault files back named = inl (rw back (read_report-json r named))
