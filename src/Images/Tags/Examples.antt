-- ===== src/Images/Tags/Examples.antt =====
-- Tags at concrete values; the text comparison here compares lengths.
use signalk_doctor_server.Common.{ℕ, ◌≡◌, refl, arith, List, if◌then◌else◌, ltb, ◌==◌, length}
use signalk_doctor_server.Common.Text.{codes}
use signalk_doctor_server.Images.Tags.{
  Compared, newer, older, level, compare_semver, classify_channel, stable, beta, master, dirkwa,
  match_semver, compare_matched,
}
use signalk_doctor_server.Images.Tags.Order.{Flips}

abbrev by_length : List ℕ → List ℕ → Compared
by_length a b =
    if length a == length b then level else if ltb (length a) (length b) then older else newer

by_length-Flips : Flips by_length
by_length-Flips a b = ground arith

channels :
    (classify_channel "v1.2.3" ≡ stable)
    × (classify_channel " 1.2.3-RC.2" ≡ beta)
    × (classify_channel "main-0a1b2c3d" ≡ master)
    × (classify_channel "main-xyz" ≡ dirkwa)
unfolding classify_channel match_semver signalk_doctor_server.Common.Text.trim
    signalk_doctor_server.Common.Text.read_number signalk_doctor_server.Common.Text.starts
    signalk_doctor_server.Common.Text.contains_i
channels = (refl, refl, refl, refl)

stable_newer : compare_semver by_length (codes "v1.2.0") (codes "1.2.0-beta.1") ≡ newer
unfolding compare_semver match_semver compare_matched signalk_doctor_server.Common.Text.read_number
    signalk_doctor_server.Common.Text.starts
stable_newer = refl
