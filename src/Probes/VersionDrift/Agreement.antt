-- ===== src/Probes/VersionDrift/Agreement.antt =====
-- When the probe says that all is well.
use signalk_doctor_server.Common.{◌≡◌, ◌⊎◌, true, Option, none, some, String, ◌^^◌, Empty}
use signalk_doctor_server.Common.Strings.{truthy}
use signalk_doctor_server.Probes.VersionDrift.{
  Sources, is_fixed_version_tag, Judged, drift, warning, fine,
}

-- Where both are known they are the same.
abbrev pub SameTag : Option String → Option String → Type 0
SameTag none b = Unit
SameTag (some a) none = Unit
SameTag (some a) (some b) = a ≡ b

-- A tag that is a version is the reported one, with or without a v in front.
abbrev pub Reports : Option String → Option String → Type 0
Reports none tag = Unit
Reports (some v) none = Unit
Reports (some v) (some tag) = is_fixed_version_tag tag ≡ true → (v ≡ tag) ⊎ ("v" ^^ v ≡ tag)

-- The runtime answered, and the three sources agree as far as they are known.
abbrev pub Agrees : Sources → Type 0
Agrees s =
    (s.runtime_error ≡ none)
    × SameTag (truthy s.quadlet_tag) (truthy s.running_tag)
    × Reports (truthy s.reported_version) (truthy s.running_tag)
    × Reports (truthy s.reported_version) (truthy s.quadlet_tag)

abbrev IsFine : Judged → Type 0
IsFine (drift m) = Empty
IsFine (warning m) = Empty
IsFine (fine m) = Unit
