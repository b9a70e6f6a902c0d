-- ===== src/BugReport/Specific.antt =====
-- Which mount a path is resolved by.
use signalk_doctor_server.Common.{
  ℕ, ◌≤◌, ◌≡◌, Bool, true, false, ◌||◌, Option, none, some, List, [], ◌∷◌, if◌then◌else◌, length,
  drop, All, In,
}
use signalk_doctor_server.Common.Text.{codes_eq, starts}
use signalk_doctor_server.BugReport.Paths.{Mount, prefix_of, join}

-- The path is the mount point, or lies below it.
abbrev pub covers : List ℕ → Mount → Bool
covers path m = codes_eq path m.mount_point || starts (prefix_of m.mount_point) path

-- Where the path lies on the host, as the mount has it.
abbrev pub host_path : List ℕ → Mount → List ℕ
host_path path m =
    if codes_eq path m.mount_point
    then m.host_root
    else join m.host_root (drop (length m.mount_point) path)

abbrev NoLonger : Mount → Mount → Type 0
NoLonger m n = length n.mount_point ≤ length m.mount_point

abbrev LongestFirst : List Mount → Type 0
LongestFirst [] = Unit
LongestFirst (m ∷ ms) = All (NoLonger m) ms × LongestFirst ms

-- What a resolution over mounts says.
abbrev pub IsResolved : List ℕ → List Mount → Option (List ℕ) → Type 0
IsResolved path ms none = (n : Mount) → In n ms → covers path n ≡ false
IsResolved path ms (some p) =
    (m : Mount) × In m ms
    × (covers path m ≡ true)
    × (p ≡ host_path path m)
    × ((n : Mount) → In n ms → covers path n ≡ true → length n.mount_point ≤ length m.mount_point)
