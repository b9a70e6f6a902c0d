-- ===== src/Probes/VersionDrift.antt =====
-- src/probes/version-drift.ts: the quadlet's image, the running image and the version that the
-- engine reports, against each other. The readings are arguments; `details` is left out.
mod Examples
pub mod Tag
pub mod Agreement
use Prim.Native.String
use Prim.Native.Char.{code}
use signalk_doctor_server.Common.{
  ℕ, Bool, true, false, ◌&&◌, ◌||◌, not, Option, none, some, List, [], ◌∷◌, ◌++◌, String, str_eq,
  ◌^^◌, if◌then◌else◌, ◌==◌, get_or,
}
use signalk_doctor_server.Common.Json.{Json, get_field, as_string}
use signalk_doctor_server.Common.Strings.{
  truthy, has_char, split_at, strip_prefix, trim_text, join_with,
}
use signalk_doctor_server.Common.Text.{codes, is_word, read_number, read_char}
use signalk_doctor_server.Errors.{CategorizedError}
use signalk_doctor_server.Drift.Installed.{kind_name, is_not_found}
use signalk_doctor_server.Drift.Scanner.{Inspected, read_running_signalk_image}
use signalk_doctor_server.Probes.Runner.{ProbeStatus, ok, warn, ProbeResult}

pub record Sources : Type 0 where
  pub quadlet_image : Option String
  pub quadlet_tag : Option String
  pub running_image : Option String
  pub running_tag : Option String
  pub reported_version : Option String
  pub runtime_error : Option CategorizedError

-- `[\w.-]+$`
all_suffix : List ℕ → Bool
all_suffix [] = true
all_suffix (c ∷ text) = (is_word c || c == b'.' || c == b'-') && all_suffix text

-- `(?:[-+][\w.-]+)?$`
suffix : List ℕ → Bool
unfolding all_suffix
suffix [] = true
suffix (c ∷ []) = false
suffix (c ∷ d ∷ text) = (c == b'-' || c == b'+') && all_suffix (d ∷ text)

third : Option (ℕ × List ℕ) → Bool
unfolding suffix
third none = false
third (some (n, text)) = suffix text

second : Option (ℕ × List ℕ) → Bool
unfolding third
second none = false
second (some (n, text)) = elim (read_char b'.' text) [
  | none ↦ false
  | some rest ↦ third (read_number rest)
]

first : Option (ℕ × List ℕ) → Bool
unfolding second
first none = false
first (some (n, text)) = elim (read_char b'.' text) [
  | none ↦ false
  | some rest ↦ second (read_number rest)
]

-- `v?`
after_v : List ℕ → List ℕ
after_v [] = []
after_v (c ∷ text) = if c == b'v' then text else c ∷ text

-- `/^v?\d+\.\d+\.\d+(?:[-+][\w.-]+)?$/`
unfoldable pub is_fixed_version_tag : String → Bool
unfolding first after_v read_number
is_fixed_version_tag tag = first (read_number (after_v (codes tag)))

-- `split('@')[0]`
unfoldable pub no_digest : String → String
no_digest String.[] = ""
no_digest (String.◌∷◌ c s) =
    let rest = String.◌∷◌ c (no_digest s) in if code c == b'@' then "" else rest

-- What follows the last colon, if no slash does.
unfoldable pub after_colon : String → Option String
unfolding has_char
after_colon String.[] = none
after_colon (String.◌∷◌ c s) = elim (after_colon s) [
  | some tag ↦ some tag
  | none ↦ if code c == b':' && not (has_char b'/' s || has_char b':' s) then some s else none
]

unfoldable pub tag_of : Option String → Option String
unfolding after_colon no_digest
tag_of none = none
tag_of (some image) = after_colon (no_digest image)

-- The first line that gives an image. The trim takes off a carriage return.
image_line : List String → Option String
image_line [] = none
image_line (line ∷ lines) = elim (strip_prefix "Image=" (trim_text line)) [
  | some image ↦ some (trim_text image)
  | none ↦ image_line lines
]

-- `none` where the quadlet cannot be read.
unfoldable pub read_quadlet_image : Option String → Option String
unfolding image_line
read_quadlet_image none = none
read_quadlet_image (some text) = image_line (split_at 10 text)

-- What the inspection of a container gives.
pub data Inspection : Type 0 where
  no_runtime : Inspection
  inspect_failed : CategorizedError → Inspection
  inspected : Inspected → Inspection

pub record RunningImageResult : Type 0 where
  pub image : Option String
  pub error : Option CategorizedError

unfoldable pub read_running_image : Inspection → RunningImageResult
read_running_image no_runtime = record { image = none; error = none }
read_running_image (inspect_failed e) =
    if is_not_found e.kind
    then record { image = none; error = none }
    else record { image = none; error = some e }
read_running_image (inspected info) = record {
  image = read_running_signalk_image (some info);
  error = none;
}

-- The health answer of the engine: `none` where it cannot be had, is not ok or is no JSON.
unfoldable pub read_reported_version : Option Json → Option String
read_reported_version none = none
read_reported_version (some body) = elim (truthy (as_string (get_field "version" body))) [
  | none ↦ none
  | some v ↦ if str_eq v "unknown" then none else some v
]

-- What is read for one container; there may be no health address.
pub record Readings : Type 0 where
  pub container : String
  pub quadlet : Option String
  pub inspection : Inspection
  pub health : Option (Option Json)

reported_of : Option (Option Json) → Option String
unfolding read_reported_version
reported_of none = none
reported_of (some answer) = read_reported_version answer

unfoldable pub gather_sources : Readings → Sources
unfolding reported_of read_running_image read_quadlet_image
gather_sources r =
    let running = read_running_image r.inspection in
    let quadlet_image = read_quadlet_image r.quadlet in
    record {
      quadlet_image = quadlet_image;
      quadlet_tag = tag_of quadlet_image;
      running_image = running.image;
      running_tag = tag_of running.image;
      reported_version = reported_of r.health;
      runtime_error = running.error;
    }

-- Both are there, and they are not the same text.
differ : Option String → Option String → Bool
differ none b = false
differ (some a) none = false
differ (some a) (some b) = not (str_eq a b)

-- The reported version is neither the tag nor the tag without its v.
contradicts : Option String → Option String → Bool
contradicts none tag = false
contradicts (some v) none = false
contradicts (some v) (some tag) =
    is_fixed_version_tag tag && not (str_eq v tag) && not (str_eq ("v" ^^ v) tag)

pub data Judged : Type 0 where
  drift : String → Judged
  warning : String → Judged
  fine : String → Judged

abbrev stamp : Sources → String
stamp s = elim (truthy s.reported_version) [
  | some v ↦ "v" ^^ v
  | none ↦ get_or s.running_tag (get_or s.quadlet_tag "unknown")
]

abbrev shown : Option String → String
shown o = get_or o ""

no_error : String → Sources → Judged
unfolding differ contradicts
no_error container s =
    if differ (truthy s.quadlet_tag) (truthy s.running_tag)
    then drift (
        container
        ^^ ": Quadlet pins "
        ^^ shown s.quadlet_tag
        ^^ " but container is on "
        ^^ shown s.running_tag)
    else if contradicts (truthy s.reported_version) (truthy s.running_tag)
    then drift (
        container
        ^^ ": image tag "
        ^^ shown s.running_tag
        ^^ " but engine reports v"
        ^^ shown s.reported_version)
    else if contradicts (truthy s.reported_version) (truthy s.quadlet_tag)
    then drift (
        container
        ^^ ": Quadlet pins "
        ^^ shown s.quadlet_tag
        ^^ " but engine reports v"
        ^^ shown s.reported_version)
    else fine (container ^^ ": " ^^ stamp s)

judge_with : String → Sources → Option CategorizedError → Judged
unfolding no_error
judge_with container s (some e) = warning (
    container
    ^^ ": cannot read running image ("
    ^^ kind_name e.kind
    ^^ ": "
    ^^ e.user_message
    ^^ ")")
judge_with container s none = no_error container s

unfoldable pub judge : String → Sources → Judged
unfolding judge_with
judge container s = judge_with container s s.runtime_error

-- The three lists of messages.
pub record Messages : Type 0 where
  pub drifts : List String
  pub warnings : List String
  pub summaries : List String

abbrev push : Judged → Messages → Messages
push (drift m) ms = record ms { drifts = ms.drifts ++ m ∷ [] }
push (warning m) ms = record ms { warnings = ms.warnings ++ m ∷ [] }
push (fine m) ms = record ms { summaries = ms.summaries ++ m ∷ [] }

unfoldable pub judge_all : List (String × Sources) → Messages → Messages
judge_all [] ms = ms
judge_all ((container, s) ∷ rest) ms = judge_all rest (push (judge container s) ms)

abbrev all_agree : List String → String
all_agree [] = "No version information available to compare"
all_agree (s ∷ summaries) = "All sources agree: " ^^ join_with ", " (s ∷ summaries)

verdict : Messages → ProbeStatus × String
verdict ms = elim ms.drifts [
  | d ∷ ds ↦ (warn, join_with "; " (ms.drifts ++ ms.warnings))
  | [] ↦ elim ms.warnings [
    | w ∷ ws ↦ (warn, join_with "; " ms.warnings)
    | [] ↦ (ok, all_agree ms.summaries)
  ]
]

sources_of : List Readings → List (String × Sources)
sources_of [] = []
sources_of (r ∷ rs) = (r.container, gather_sources r) ∷ sources_of rs

-- The readings of the updater, which has a health address, and of the server, which has none.
unfoldable pub probe_version_drift : (updater server : Readings) → (duration_ms : ℕ) → ProbeResult
unfolding judge_all verdict sources_of
probe_version_drift updater server duration_ms =
    let (status, message) = verdict (
      judge_all (sources_of (updater ∷ server ∷ []))
        (record { drifts = []; warnings = []; summaries = [] })) in
    record {
      id = "version-drift";
      label = "Version drift";
      status = status;
      message = message;
      duration_ms = duration_ms;
    }
