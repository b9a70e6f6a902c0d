-- ===== src/Probes/VersionDrift/Examples.antt =====
-- An updater whose quadlet, image and report agree, and a server that runs another tag.
use signalk_doctor_server.Common.{◌≡◌, refl, some, none}
use signalk_doctor_server.Common.Json.{str, obj, end, field, get_field}
use signalk_doctor_server.Common.Strings.{strip_prefix, split_at, trim_text, join_with}
use signalk_doctor_server.Drift.Scanner.{read_running_signalk_image}
use signalk_doctor_server.Probes.VersionDrift.{
  Readings, inspected, gather_sources, tag_of, is_fixed_version_tag, judge, judge_all,
  probe_version_drift,
}

abbrev updater : Readings
updater = record {
  container = "signalk-updater-server";
  quadlet = some "[Container]\nImage=ghcr.io/u:v0.5.0\n";
  inspection =
      inspected
        (record { image = none; image_name = some "ghcr.io/u:v0.5.0"; config_image = none });
  health = some (some (obj (field "version" (str "0.5.0") end)));
}

abbrev server : Readings
server = record {
  container = "signalk-server";
  quadlet = some "Image=ghcr.io/s:2.0.0";
  inspection =
      inspected (record { image = none; image_name = some "ghcr.io/s:1.0.0"; config_image = none });
  health = none;
}

server_drifts :
    (probe_version_drift updater server 7).message
    ≡ "signalk-server: Quadlet pins 2.0.0 but container is on 1.0.0"
unfolding probe_version_drift judge_all judge gather_sources tag_of is_fixed_version_tag join_with
    split_at strip_prefix trim_text read_running_signalk_image get_field
server_drifts = refl
