-- ===== src/Probes/DependencyDrift.antt =====
-- src/probes/dependency-drift.ts: the verdict on the stored drift report. Date.parse, the clock
-- and the printing of numbers are arguments; `details` is left out.
mod Examples
pub mod Places
pub mod Verdict
use signalk_doctor_server.Common.{
  ℕ, suc, ◌-◌, Bool, false, ◌&&◌, ◌||◌, not, Option, none, some, List, [], ◌∷◌, ◌++◌, String, ◌^^◌,
  if◌then◌else◌, ltb, ◌==◌, any, length, map, get_or, is_some, option_map,
}
use signalk_doctor_server.Common.Strings.{join_with}
use signalk_doctor_server.Drift.Types.{
  DriftClassification, up_to_date, patch, minor, major, prerelease, unknown, DriftLocation,
  DriftPackage, DriftReport,
}
use signalk_doctor_server.Probes.Runner
use signalk_doctor_server.Probes.Runner.{ProbeStatus, ProbeResult}

abbrev pub stale_after_ms : ℕ
stale_after_ms = 604800000

unfoldable pub severity : DriftClassification → ℕ
severity major = 5
severity minor = 4
severity patch = 3
severity prerelease = 2
severity unknown = 1
severity up_to_date = 0

pub data Location : Type 0 where
  in_image in_data_dir : Location

pub record MajorEntry : Type 0 where
  pub name : String
  pub location : Location
  pub installed : String
  pub latest : Option String
  pub last_fetched_at : Option String

abbrev pub is_major : Option DriftLocation → Bool
is_major none = false
is_major (some l) = severity l.classification == 5

abbrev pub is_unknown : Option DriftLocation → Bool
is_unknown none = false
is_unknown (some l) = severity l.classification == 1

major_at : DriftPackage → Location → Option DriftLocation → List MajorEntry
major_at p where_ none = []
major_at p where_ (some l) =
    if severity l.classification == 5
    then record {
      name = p.name;
      location = where_;
      installed = l.installed;
      latest = p.latest;
      last_fetched_at = p.last_fetched_at;
    }
      ∷ []
    else []

unfoldable pub collect_majors : List DriftPackage → List MajorEntry
unfolding major_at
collect_majors [] = []
collect_majors (p ∷ ps) =
    major_at p in_image p.image ++ (major_at p in_data_dir p.data_dir ++ collect_majors ps)

-- No place was resolved, or one that was lacks a comparison.
unfoldable pub is_uncompared : DriftPackage → Bool
is_uncompared p =
    (not (is_some p.image) && not (is_some p.data_dir))
    || is_unknown p.image
    || is_unknown p.data_dir

abbrev pub has_location : DriftPackage → Bool
has_location p = is_some p.image || is_some p.data_dir

worse : Option DriftClassification → Option DriftLocation → Option DriftClassification
worse w none = w
worse none (some l) = some l.classification
worse (some w) (some l) =
    if ltb (severity w) (severity l.classification) then some l.classification else some w

unfoldable pub worst_of : DriftPackage → DriftClassification
unfolding worse
worst_of p = get_or (worse (worse none p.image) p.data_dir) unknown

count_of : DriftClassification → List DriftPackage → ℕ
count_of c [] = 0
count_of c (p ∷ ps) =
    let n = count_of c ps in if severity (worst_of p) == severity c then suc n else n

phrase : DriftClassification → String
phrase up_to_date = "up-to-date"
phrase patch = "patch behind"
phrase minor = "minor behind"
phrase major = "major behind"
phrase prerelease = "prerelease"
phrase unknown = "not compared yet"

-- The least of the times that can be read.
older : Option ℕ → Option ℕ → Option ℕ
older none t = t
older (some o) none = some o
older (some o) (some t) = if ltb t o then some t else some o

module _ (parse_date : String → Option ℕ) (now : ℕ) (decimal days : ℕ → String) where
  parts : List DriftClassification → List DriftPackage → List String
  unfolding count_of phrase
  parts [] packages = []
  parts (c ∷ cs) packages =
      let rest = parts cs packages in
      if count_of c packages == 0
      then rest
      else (decimal (count_of c packages) ^^ " " ^^ phrase c) ∷ rest

  -- Zero counts are left out.
  unfoldable pub count_summary : List DriftPackage → String
  unfolding parts
  count_summary packages =
      join_with ", "
        (parts (major ∷ minor ∷ patch ∷ prerelease ∷ unknown ∷ up_to_date ∷ []) packages)

  oldest_from : Option ℕ → List (Option String) → Option ℕ
  unfolding older
  oldest_from oldest [] = oldest
  oldest_from oldest (none ∷ ats) = oldest_from oldest ats
  oldest_from oldest (some iso ∷ ats) = oldest_from (older oldest (parse_date iso)) ats

  -- A time to come counts as an age of 0.
  unfoldable pub oldest_fetch_age_ms : List (Option String) → Option ℕ
  unfolding oldest_from
  oldest_fetch_age_ms ats = option_map (λ t. now - t) (oldest_from none ats)

  unfoldable pub stale_suffix : Option ℕ → String
  stale_suffix none = ""
  stale_suffix (some age) =
      if ltb age stale_after_ms then "" else " (registry data " ^^ days age ^^ " days old)"

  location_name : Location → String
  location_name in_image = "image"
  location_name in_data_dir = "data dir"

  major_text : MajorEntry → String
  unfolding location_name
  major_text e =
      e.name
      ^^ " ("
      ^^ location_name e.location
      ^^ ") "
      ^^ e.installed
      ^^ " → "
      ^^ get_or e.latest "?"

  majors_message : List MajorEntry → String
  unfolding major_text
  majors_message majors =
      decimal (length majors)
      ^^ " package cop"
      ^^ (if length majors == 1 then "y" else "ies")
      ^^ " a major version behind: "
      ^^ join_with "; " (map (major_text) majors)
      ^^ " — see the Drift tab"
      ^^ stale_suffix (oldest_fetch_age_ms (map (λ e. e.last_fetched_at) majors))

  without_majors : List DriftPackage → ProbeStatus × String
  without_majors packages =
      let summary = count_summary packages in
      let stale = stale_suffix (oldest_fetch_age_ms (map (λ p. p.last_fetched_at) packages)) in
      if any is_uncompared packages
      then (
        Runner.unknown,
        "comparison incomplete: " ^^ summary ^^ " — rescan on the Drift tab" ^^ stale,
      )
      else (
        Runner.ok,
        decimal (length packages)
            ^^ " tracked package"
            ^^ (if length packages == 1 then "" else "s")
            ^^ ": "
            ^^ summary
            ^^ "; no major drift"
            ^^ stale,
      )

  with_majors : List MajorEntry → List DriftPackage → ProbeStatus × String
  unfolding without_majors majors_message
  with_majors [] packages = without_majors packages
  with_majors (e ∷ majors) packages = (Runner.warn, majors_message (e ∷ majors))

  of_packages : List DriftPackage → ProbeStatus × String
  unfolding with_majors
  of_packages [] = (
    Runner.unknown, "drift report has no tracked packages — see the Drift tab for the scan status",
  )
  of_packages (p ∷ ps) =
      if any has_location (p ∷ ps)
      then with_majors (collect_majors (p ∷ ps)) (p ∷ ps)
      else (Runner.unknown, "package locations not scanned yet — awaiting the next drift scan")

  of_report : Option DriftReport → ProbeStatus × String
  unfolding of_packages
  of_report none = (
    Runner.unknown,
    "no drift report yet — the scanner runs shortly after boot, or use Rescan on the Drift tab",
  )
  of_report (some report) = of_packages report.packages

  -- On the report that is stored.
  unfoldable pub probe_dependency_drift : Option DriftReport → (duration_ms : ℕ) → ProbeResult
  unfolding of_report
  probe_dependency_drift report duration_ms =
      let (status, message) = of_report report in
      record {
        id = "dependency-drift";
        label = "Dependency drift";
        status = status;
        message = message;
        duration_ms = duration_ms;
      }
