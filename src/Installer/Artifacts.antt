-- ===== src/Installer/Artifacts.antt =====
-- src/installer/refresh.ts: the table of the artifacts, and the directories that the environment
-- may override. `join` is a slash: the directories have none at their end.
use signalk_doctor_server.Common.{ℕ, Option, List, [], ◌∷◌, String, ◌^^◌, get_or}

pub data ArtifactKind : Type 0 where
  host_script quadlet_template detect_script : ArtifactKind

pub record ArtifactDescriptor : Type 0 where
  pub id : String
  pub remote_path : String
  pub dest_path : String
  pub mode : ℕ
  pub kind : ArtifactKind

-- DOCTOR_DATA, HOST_BIN_DIR and INSTALLER_PAGES_BASE, where they are set.
pub record Settings : Type 0 where
  pub doctor_data_var : Option String
  pub host_bin_dir_var : Option String
  pub pages_base_var : Option String

abbrev pub doctor_data : Settings → String
doctor_data s = get_or s.doctor_data_var "/data"

abbrev pub host_bin_dir : Settings → String
host_bin_dir s = get_or s.host_bin_dir_var "/host-bin"

abbrev pub snapshot_dir : Settings → String
snapshot_dir s = doctor_data s ^^ "/installer-snapshots"

abbrev pub payload_dir : Settings → String
payload_dir s = doctor_data s ^^ "/installer-payload"

abbrev pub pages_base : Settings → String
pages_base s = get_or s.pages_base_var "https://dirkwa.github.io/signalk-universal-installer"

abbrev executable : ℕ
executable = 0o755

abbrev plain : ℕ
plain = 0o644

abbrev script : Settings → String → ArtifactDescriptor
script s name = record {
  id = name;
  remote_path = "installer/linux/" ^^ name ^^ ".tmpl";
  dest_path = host_bin_dir s ^^ "/" ^^ name;
  mode = executable;
  kind = host_script;
}

abbrev detect : Settings → String → String → ArtifactDescriptor
detect s id name = record {
  id = id;
  remote_path = "installer/linux/" ^^ name;
  dest_path = payload_dir s ^^ "/" ^^ name;
  mode = executable;
  kind = detect_script;
}

abbrev template : Settings → String → String → ArtifactDescriptor
template s id name = record {
  id = id;
  remote_path = "quadlets/" ^^ name;
  dest_path = payload_dir s ^^ "/" ^^ name;
  mode = plain;
  kind = quadlet_template;
}

unfoldable pub artifacts : Settings → List ArtifactDescriptor
artifacts s =
    script s "signalk"
    ∷ script s "signalk-recovery"
    ∷ script s "signalk-socketcan"
    ∷ script s "signalk-bluetooth"
    ∷ script s "signalk-halpi2"
    ∷ script s "signalk-kiosk"
    ∷ detect s "detect-hardware" "detect-hardware.sh"
    ∷ detect s "render-server-quadlet" "render-server-quadlet.sh"
    ∷ template s "quadlet-signalk-server" "signalk-server.container.template"
    ∷ template s "quadlet-updater-server" "signalk-updater-server.container.template"
    ∷ template s "quadlet-doctor-server" "signalk-doctor-server.container.template"
    ∷ template s "quadlet-dbus-proxy" "signalk-dbus-proxy.container.template"
    ∷ []
