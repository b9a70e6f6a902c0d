-- ===== src/Drift/Installed/Complete.antt =====
-- What a reading of all tracked packages proves.
use signalk_doctor_server.Common.{
  ℕ, ◌≡◌, ◌⊎◌, true, ◌||◌, Option, none, some, List, [], ◌∷◌, String, is_some, All, In, Empty,
}
use signalk_doctor_server.Common.Json.{Json}
use signalk_doctor_server.Errors.{CategorizedError}
use signalk_doctor_server.Drift.Types.{unreachable, runtime}
use signalk_doctor_server.Drift.Scanner.{InstalledPackage, InstalledResult, read, not_read}
use signalk_doctor_server.Drift.Installed.Paths.{
  Target, data_dir_candidate_paths, image_candidate_paths,
}
use signalk_doctor_server.Drift.Installed.{
  error, ContainerProbe, Reading, tracked_packages, not_reached,
}
use signalk_doctor_server.Drift.Installed.Walk.{Miss, FailsAt, NullAt, FirstVersion}

module _ (parse : List ℕ → Option Json) (probe : ContainerProbe) (target : Target) where
  -- A version is the first one on the path list; none means that each candidate was looked at.
  abbrev pub Sees : List String → Option String → Type 0
  Sees paths none = All (Miss parse probe) paths
  Sees paths (some v) = FirstVersion parse probe paths v

  abbrev pub IsEntry : InstalledPackage → Type 0
  IsEntry p =
      Sees (data_dir_candidate_paths target p.name) p.data_dir
      × Sees (image_candidate_paths target p.name) p.image
      × (is_some p.data_dir || is_some p.image ≡ true)

  abbrev pub Listed : List InstalledPackage → String → Type 0
  Listed ps name = (p : InstalledPackage) × In p ps × (p.name ≡ name)

  abbrev pub IsAbsent : String → Type 0
  IsAbsent name =
      Sees (data_dir_candidate_paths target name) none
      × Sees (image_candidate_paths target name) none

  -- A read of one of the two places of that package failed.
  abbrev pub Failing : (name detail : String) → Type 0
  Failing name detail =
      (path : String) × (In path (data_dir_candidate_paths target name)
        ⊎ In path (image_candidate_paths target name))
      × FailsAt parse probe path detail

  abbrev Answered : Reading → String → Type 0
  Answered r name =
      Listed r.packages name
      ⊎ IsAbsent name
      ⊎ ((is_some r.first_runtime_error ≡ true) × (d : String) × Failing name d)

  -- The error is of a package among the names.
  abbrev pub FailingOne : List String → String → Type 0
  FailingOne names detail = (name : String) × In name names × Failing name detail

  record Goes (names : List String) (before after : Reading) : Type 0 where
    pub entries : All IsEntry before.packages → All IsEntry after.packages
    pub listed : (name : String) → Listed before.packages name → Listed after.packages name
    pub error_stays :
        is_some before.first_runtime_error ≡ true → is_some after.first_runtime_error ≡ true
    pub error_is :
        (d : String)
        → after.first_runtime_error ≡ some d
        → (before.first_runtime_error ≡ some d) ⊎ FailingOne names d
    pub answers : All (Answered after) names

  abbrev Loop : List String → Reading → Option Reading → Type 0
  Loop names before none = (path : String) × NullAt parse probe path
  Loop names before (some after) = Goes names before after

  -- What each result says of the container.
  abbrev pub IsTrue : Option InstalledResult → Type 0
  IsTrue none = (path : String) × NullAt parse probe path
  IsTrue (some (read [])) = All IsAbsent tracked_packages
  IsTrue (some (read (p ∷ ps))) =
      All IsEntry (p ∷ ps)
      × All (λ name. Listed (p ∷ ps) name ⊎ IsAbsent name ⊎ ((d : String) × Failing name d))
          tracked_packages
  IsTrue (some (not_read unreachable detail)) = Empty
  IsTrue (some (not_read runtime detail)) =
      ((e : CategorizedError) × (probe.probe ≡ error e) × (detail ≡ not_reached e))
      ⊎ FailingOne tracked_packages detail

  abbrev OneOf : List InstalledPackage → Option String → String → Type 0
  OneOf ps o name =
      Listed ps name ⊎ IsAbsent name ⊎ ((is_some o ≡ true) × (d : String) × Failing name d)
