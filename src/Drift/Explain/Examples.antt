-- ===== src/Drift/Explain/Examples.antt =====
-- A package held by the server and, twice with one range, by a plugin.
use signalk_doctor_server.Common.{refl, true, false, some, [], ◌∷◌, String, All}
use signalk_doctor_server.Common.Json.{Json, str, obj, field, end, arr, nil, cons, get_field}
use signalk_doctor_server.Drift.Explain.{
  PackageExplanation, parse_explain_output, group_copies, explain_one, add_copies, add_dependents,
  add_dependent, relevant_copies,
}
use signalk_doctor_server.Common.Maps.{lookup, insert}
use signalk_doctor_server.Drift.Explain.Held.{IsSound, parse_explain_output-IsSound}

abbrev dependent : String → Json
dependent name = obj (
    field "spec" (str "^1.0.0")
      (field "from" (obj (field "name" (str name) (field "version" (str "2.0.0") end))) end))

abbrev output : Json
output = arr (
    cons
      (obj (
        field "name" (str "charts") (
          field "version" (str "1.2.0") (
            field "dependents"
              (arr (
                cons (dependent "signalk-server")
                  (cons (dependent "plugin") (cons (dependent "plugin") nil))))
              end))))
      nil)

abbrev explanation : PackageExplanation
explanation = record {
  name = "charts";
  version = some "1.2.0";
  dependents =
      record { name = "signalk-server"; version = some "2.0.0"; spec = "^1.0.0" }
      ∷ record { name = "plugin"; version = some "2.0.0"; spec = "^1.0.0" }
      ∷ [];
  extraneous = false;
  held_by_embedded_server = true;
}

parse_explain_output-IsSound_example : All IsSound (explanation ∷ [])
unfolding parse_explain_output group_copies explain_one add_copies add_dependents add_dependent
    relevant_copies get_field lookup insert
parse_explain_output-IsSound_example =
    parse_explain_output-IsSound (some output) (explanation ∷ []) refl
