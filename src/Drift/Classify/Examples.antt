-- ===== src/Drift/Classify/Examples.antt =====
-- The classification at concrete versions.
use signalk_doctor_server.Common.{none}
use signalk_doctor_server.Drift.Classify.{Parsed}

abbrev installed_version : Parsed
installed_version = record {
  major_part = 2;
  minor_part = 9;
  patch_part = 1;
  prerelease_part = none;
}

abbrev latest_version : Parsed
latest_version = record { major_part = 2; minor_part = 10; patch_part = 0; prerelease_part = none }
