-- ===== src/Drift/Explain.antt =====
-- src/drift/explain.ts: who holds a package back, by `npm explain --json`. `JSON.parse` and
-- `slice` are arguments; npm runs through the exec of podman/exec.ts, on a world `W`.
mod Examples
pub mod Held
use signalk_doctor_server.Common.{
  ℕ, Bool, true, false, ◌&&◌, ◌||◌, not, Option, none, some, List, [], ◌∷◌, ◌++◌, String, ◌^^◌,
  str_eq, if◌then◌else◌, ◌==◌, any, find, get_or, option_bind, option_map, starts_with,
}
use signalk_doctor_server.Common.Maps.{lookup, insert}
use signalk_doctor_server.Common.Json.{Json, get_field, as_string, as_array, is_true}
use signalk_doctor_server.Podman.Exec.{
  ExecResult, success, failure, ExecSuccess, FailureReason, timeout, unreachable, runtime,
}

pub record PackageDependent : Type 0 where
  pub name : String
  pub version : Option String
  pub spec : String

pub record PackageExplanation : Type 0 where
  pub name : String
  pub version : Option String
  pub dependents : List PackageDependent
  pub extraneous : Bool
  pub held_by_embedded_server : Bool

-- The entries with a name, in groups by name, in order of first appearance.
unfoldable pub group_copies : List Json → List (String × List Json) → List (String × List Json)
group_copies [] groups = groups
group_copies (raw ∷ rest) groups = group_copies rest (add (as_string (get_field "name" raw)))
  where
    add : Option String → List (String × List Json)
    add none = groups
    add (some name) =
        if str_eq name ""
        then groups
        else insert name (get_or (lookup name groups) [] ++ raw ∷ []) groups

abbrev pub same_dependent : PackageDependent → PackageDependent → Bool
same_dependent d e = str_eq e.name d.name && str_eq e.spec d.spec

-- The tree root explains itself without a `from.name`.
abbrev pub dependent_name : Json → String
dependent_name raw =
    get_or (as_string (option_bind (get_field "from" raw) (get_field "name"))) "package.json"

with_dependent : PackageDependent → PackageExplanation → PackageExplanation
with_dependent d entry = record entry {
  dependents =
      if any (same_dependent d) entry.dependents
      then entry.dependents
      else entry.dependents ++ d ∷ [];
  held_by_embedded_server = str_eq d.name "signalk-server" || entry.held_by_embedded_server;
}

-- One round of the loop over the dependents of a copy.
unfoldable pub add_dependent : Json → PackageExplanation → PackageExplanation
unfolding with_dependent
add_dependent raw entry = elim (as_string (get_field "spec" raw)) [
  | none ↦ entry
  | some spec ↦
      with_dependent
        (record {
          name = dependent_name raw;
          version = as_string (option_bind (get_field "from" raw) (get_field "version"));
          spec = spec;
        })
        entry
]

unfoldable pub add_dependents : List Json → PackageExplanation → PackageExplanation
unfolding add_dependent
add_dependents [] entry = entry
add_dependents (raw ∷ rest) entry = add_dependents rest (add_dependent raw entry)

unfoldable pub add_copies : List Json → PackageExplanation → PackageExplanation
unfolding add_dependents
add_copies [] entry = entry
add_copies (raw ∷ rest) entry =
    add_copies rest (add_dependents (get_or (as_array (get_field "dependents" raw)) []) entry)

all_extraneous : List Json → Bool
all_extraneous [] = true
all_extraneous (raw ∷ rest) = is_true (get_field "extraneous" raw) && all_extraneous rest

is_top_level : String → Json → Bool
is_top_level name copy = elim (as_string (get_field "location" copy)) [
  | none ↦ false
  | some location ↦ str_eq location ("node_modules/" ^^ name)
]

-- The top-level copy alone where there is one, else all copies.
unfoldable pub relevant_copies : String → List Json → List Json
unfolding is_top_level
relevant_copies name copies = elim (find (is_top_level name) copies) [
  | none ↦ copies
  | some copy ↦ copy ∷ []
]

abbrev first_version : List Json → Option String
first_version [] = none
first_version (raw ∷ rest) = as_string (get_field "version" raw)

is_nil : List PackageDependent → Bool
is_nil [] = true
is_nil (d ∷ ds) = false

unfoldable pub explain_one : String → List Json → PackageExplanation
unfolding add_copies all_extraneous relevant_copies is_nil
explain_one name copies =
    let relevant = relevant_copies name copies in
    let entry = add_copies relevant (record {
      name = name;
      version = first_version relevant;
      dependents = [];
      extraneous = false;
      held_by_embedded_server = false;
    }) in
    record entry { extraneous = is_nil entry.dependents && all_extraneous relevant }

explain_all : List (String × List Json) → List PackageExplanation
unfolding explain_one
explain_all [] = []
explain_all ((name, copies) ∷ rest) = explain_one name copies ∷ explain_all rest

unfoldable pub parse_explain_output : Option Json → Option (List PackageExplanation)
unfolding explain_all group_copies
parse_explain_output parsed =
    option_map (λ entries. explain_all (group_copies entries [])) (as_array parsed)

pub data ExplainResult : Type 0 where
  explained : List PackageExplanation → ExplainResult
  not_explained : String → ExplainResult

abbrev pub reason_name : FailureReason → String
reason_name timeout = "timeout"
reason_name unreachable = "unreachable"
reason_name runtime = "runtime"

-- A container exec: the argv, whether stderr is split off, and the world.
abbrev pub ContainerExec : Type 0 → Type 0
ContainerExec W = List String → Bool → W → ExecResult × W

unfoldable pub is_no_match_error : Option Json → Bool
is_no_match_error parsed =
    elim (as_string (option_bind (option_bind parsed (get_field "error")) (get_field "summary"))) [
      | none ↦ false
      | some summary ↦ starts_with summary "No dependencies found"
    ]

module _ (json_parse : String → Option Json) (first_200 : String → String)
    (decimal : ℕ → String) where
  after_parse : ExecSuccess → Option (List PackageExplanation) → ExplainResult
  unfolding is_no_match_error
  after_parse s (some explanations) = explained explanations
  after_parse s none =
      if not (s.exit_code == 0) && is_no_match_error (json_parse s.output)
      then explained []
      else not_explained (
          "npm explain returned an unexpected payload (exit "
          ^^ decimal s.exit_code
          ^^ "): "
          ^^ first_200 s.output)

  after_explain : ExecResult → ExplainResult
  unfolding after_parse parse_explain_output
  after_explain (failure f) = not_explained (reason_name f.reason ^^ ": " ^^ f.detail)
  after_explain (success s) = after_parse s (parse_explain_output (json_parse s.output))

  unfoldable pub explain_packages :
      {W : Type 0} → ContainerExec W → List String → W → ExplainResult × W
  unfolding after_explain
  explain_packages exec [] w = (explained [], w)
  explain_packages exec (name ∷ names) w =
      let (result, w') = exec ("npm" ∷ "explain" ∷ "--json" ∷ name ∷ names) true w in
      (after_explain result, w')
