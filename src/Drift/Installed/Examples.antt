-- ===== src/Drift/Installed/Examples.antt =====
-- A reading of a container that has one package in its plugin tree.
use signalk_doctor_server.Common.{
  ℕ, ◌≡◌, refl, Option, none, some, List, [], ◌∷◌, str_eq, arith, if◌then◌else◌,
}
use signalk_doctor_server.Common.Json.{Json, str, obj, end, field}
use signalk_doctor_server.Common.Text.{codes}
use signalk_doctor_server.Errors.{not_found, CategorizedError}
use signalk_doctor_server.Drift.Scanner.{read}
use signalk_doctor_server.Drift.Installed.Paths.{Target, candidate, image_candidate_paths}
use signalk_doctor_server.Drift.Installed.Tar.{first_tar_entry}
use signalk_doctor_server.Drift.Installed.Tar.RoundTrip.{archive, first_tar_entry-archive}
use signalk_doctor_server.Drift.Installed.{
  value, error, ContainerProbe, tracked_packages, look_at, read_version_at, after_reads,
  read_installed_packages, truncate_raw,
}

abbrev zeros : ℕ → List ℕ
zeros Prim.Native.Nat.zero = []
zeros (Prim.Native.Nat.suc n) = 0 ∷ zeros n

first_tar_entry-archive_example :
    first_tar_entry (archive (zeros 124) (zeros 376) (codes "{}") (zeros 510)) ≡ some (codes "{}")
first_tar_entry-archive_example =
    first_tar_entry-archive (zeros 124) (zeros 376) (codes "{}") (zeros 510) refl refl (omega arith)

abbrev target : Target
target = record { conf_dir_var = none; app_dir_var = some "/a/b" }

candidates :
    image_candidate_paths target "p"
    ≡ candidate "/a/b/node_modules/signalk-server" "p"
      ∷ candidate "/a/b/node_modules" "p"
      ∷ candidate "/a/b" "p"
      ∷ candidate "/a" "p"
      ∷ candidate "" "p"
      ∷ []
unfolding image_candidate_paths
candidates = refl

abbrev gone : CategorizedError
gone = record { kind = not_found; user_message = "Resource not found."; raw = "no such container" }

abbrev probe : ContainerProbe
probe = record {
  probe = value [];
  fetch = λ path.
      if str_eq path (candidate "/home/node/.signalk" "@signalk/streams")
      then value (archive (zeros 124) (zeros 376) (codes "{}") [])
      else error gone;
}

abbrev parse : List ℕ → Option Json
parse text = some (obj (field "version" (str "1.2.3") end))

one_line : truncate_raw " a\n  b " ≡ "a b"
unfolding truncate_raw
one_line = refl

read_streams :
    read_installed_packages parse target (some probe)
    ≡ some (read (record { name = "@signalk/streams"; image = none; data_dir = some "1.2.3" } ∷ []))
unfolding read_installed_packages tracked_packages after_reads read_version_at look_at
    image_candidate_paths first_tar_entry
read_streams = refl
