-- ===== src/Common/Json.antt =====
-- Values of `JSON.parse`. Numbers are kept as a mark only: no code modelled here reads one.
use Prim.Native.String.{String}
use mathlib.Core.Bool.{Bool, false}
use mathlib.Core.List.{List, [], ◌∷◌}
use mathlib.Core.Option.{Option, none, some}
use text.Mathlib.Text.{◌==◌ as str_eq}
use signalk_doctor_server.Common.Tests.{if◌then◌else◌}

mutual
  pub data Json : Type 0 where
    null num : Json
    bool : Bool → Json
    str : String → Json
    arr : Items → Json
    obj : Fields → Json

  pub data Items : Type 0 where
    nil : Items
    cons : Json → Items → Items

  pub data Fields : Type 0 where
    end : Fields
    field : String → Json → Fields → Fields

abbrev pub items : Items → List Json
items nil = []
items (cons v vs) = v ∷ items vs

-- Of two fields with one name the later counts.
unfoldable pub last_field : String → Fields → Option Json → Option Json
last_field k end found = found
last_field k (field j v fs) found = last_field k fs (if str_eq j k then some v else found)

-- `v?.name`: undefined on everything but an object that has the field.
unfoldable pub get_field : String → Json → Option Json
unfolding last_field
get_field k (obj fs) = last_field k fs none
get_field k null = none
get_field k num = none
get_field k (bool b) = none
get_field k (str s) = none
get_field k (arr vs) = none

-- `typeof v === 'string'`
abbrev pub as_string : Option Json → Option String
as_string (some (str s)) = some s
as_string _ = none

-- `Array.isArray(v) ? v : …`
abbrev pub as_array : Option Json → Option (List Json)
as_array (some (arr vs)) = some (items vs)
as_array _ = none

-- `v === true`
abbrev pub is_true : Option Json → Bool
is_true (some (bool b)) = b
is_true _ = false
