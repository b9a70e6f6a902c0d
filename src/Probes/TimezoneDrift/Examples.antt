-- ===== src/Probes/TimezoneDrift/Examples.antt =====
-- A host in Berlin with two peers, one of which has no zone.
use signalk_doctor_server.Common.{◌≡◌, refl, Option, none, some, [], ◌∷◌, String}
use signalk_doctor_server.Common.Json.{Json, str, arr, obj, Items, nil, cons, end, field, get_field}
use signalk_doctor_server.Common.Maps.{insert}
use signalk_doctor_server.Common.Strings.{strip_prefix, join_with}
use signalk_doctor_server.HostTimezone.{host_zone}
use signalk_doctor_server.Probes.TimezoneDrift.{
  TimezoneSources, PeerAnswer, peer_info, listing, tz_of, peer_zone, read_peers, managed_peer_names,
  read_peer_zones, zones_match, is_utc, peer_warnings, warnings_of, probe_timezone_drift,
}

abbrev sources : TimezoneSources
sources = record {
  host = host_zone "Europe/Berlin";
  server = some "Europe/Berlin";
  server_error = none;
  peers = ("sk-grafana", some "UTC") ∷ ("sk-influx", none) ∷ [];
  peer_error = none;
}

abbrev intl : String → Option String
intl zone = some zone

two_warnings :
    (probe_timezone_drift intl sources 3).message
    ≡ "peer sk-grafana is on UTC but the host is Europe/Berlin; peer sk-influx has no TZ set while the host is Europe/Berlin"
unfolding probe_timezone_drift warnings_of peer_warnings zones_match is_utc join_with
two_warnings = refl

abbrev container : String → Json
container name = obj (field "Names" (arr (cons (str name) nil)) end)

abbrev inspect : String → PeerAnswer
inspect name =
    peer_info (obj (field "Config" (obj (field "Env" (arr (cons (str "TZ=UTC") nil)) end)) end))

abbrev listed : Items
listed = cons (container "/sk-grafana") (cons (container "/sk-job-7") nil)

only_grafana : (read_peer_zones (listing (arr listed)) inspect).0 ≡ ("sk-grafana", some "UTC") ∷ []
unfolding read_peer_zones managed_peer_names read_peers peer_zone tz_of strip_prefix get_field
    insert
only_grafana = refl
