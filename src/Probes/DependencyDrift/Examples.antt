-- ===== src/Probes/DependencyDrift/Examples.antt =====
-- A stored report with a major copy, one that is well, and none.
use signalk_doctor_server.Common.{
  ℕ, ◌≡◌, ◌↔◌, refl, true, Option, none, some, List, [], ◌∷◌, String, str_eq, if◌then◌else◌,
}
use signalk_doctor_server.Drift.Types.{
  DriftClassification, patch, major, DriftLocation, DriftPackage, DriftReport,
}
use signalk_doctor_server.Probes.Runner
use signalk_doctor_server.Probes.DependencyDrift.{
  severity, collect_majors, is_uncompared, worst_of, count_summary, oldest_fetch_age_ms,
  stale_suffix, probe_dependency_drift,
}
use signalk_doctor_server.Common.Strings.{join_with}
use signalk_doctor_server.Probes.DependencyDrift.Places.{ReportFine, ReportMajor}
use signalk_doctor_server.Probes.DependencyDrift.Verdict.{probe_dependency_drift_iff}

abbrev copy : String → DriftClassification → Option DriftLocation
copy installed c = some (record { installed = installed; classification = c })

abbrev package_of : Option DriftLocation → Option DriftLocation → DriftPackage
package_of image data_dir = record {
  name = "signalk-server";
  image = image;
  data_dir = data_dir;
  latest = some "2.1.0";
  etag = none;
  last_fetched_at = some "2026-01-01";
}

abbrev report_of : List DriftPackage → DriftReport
report_of packages = record {
  signalk_image_tag = none;
  last_scanned_at = "2026-01-02";
  last_successful_scan_at = some "2026-01-02";
  online = true;
  last_fetch_error = none;
  packages = packages;
}

abbrev behind : DriftReport
behind = report_of (package_of (copy "2.1.0" patch) (copy "1.9.0" major) ∷ [])

abbrev parse : String → Option ℕ
parse s = if str_eq s "2026-01-01" then some 5 else none

abbrev printed : ℕ → String
printed n = "1"

warns :
    (probe_dependency_drift parse 9 printed printed (some behind) 3).message
    ≡ "1 package copy a major version behind: signalk-server (data dir) 1.9.0 → 2.1.0 — see the Drift tab"
unfolding probe_dependency_drift collect_majors severity join_with stale_suffix oldest_fetch_age_ms
warns = refl

is_fine :
    (probe_dependency_drift parse 700000000 printed printed
      (some (report_of (package_of (copy "2.0.9" patch) none ∷ [])))
      3).message
    ≡ "1 tracked package: 1 patch behind; no major drift (registry data 1 days old)"
unfolding probe_dependency_drift collect_majors severity join_with stale_suffix oldest_fetch_age_ms
    is_uncompared count_summary worst_of
is_fine = refl

probe_dependency_drift_iff_example :
    let r = probe_dependency_drift parse 9 printed printed (some behind) 3 in
    ((r.status ≡ Runner.ok) ↔ ReportFine (some behind))
    × ((r.status ≡ Runner.warn) ↔ ReportMajor (some behind))
probe_dependency_drift_iff_example =
    probe_dependency_drift_iff parse 9 printed printed (some behind) 3
