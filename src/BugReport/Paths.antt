-- ===== src/BugReport/Paths.antt =====
-- src/bug-report.ts: host paths out of the mount table, and their quoting for the shell.
use signalk_doctor_server.Common.{
  ℕ, ◌+◌, ◌-◌, ◌*◌, Bool, false, ◌&&◌, Option, none, some, List, [], ◌∷◌, ◌++◌, if◌then◌else◌, leb,
  ◌==◌, length, drop,
}
use signalk_doctor_server.Common.Text.{codes, codes_eq, starts, split_codes}

abbrev pub quote : ℕ
quote = b'\''

-- `s.replace(/'/g, "'\\''")`
unfoldable pub escape_quotes : List ℕ → List ℕ
escape_quotes [] = []
escape_quotes (c ∷ s) =
    if c == quote then quote ∷ b'\\' ∷ quote ∷ quote ∷ escape_quotes s else c ∷ escape_quotes s

unfoldable pub shell_quote : List ℕ → List ℕ
unfolding escape_quotes
shell_quote s = quote ∷ (escape_quotes s ++ quote ∷ [])

abbrev pub is_octal : ℕ → Bool
is_octal c = leb b'0' c && leb c b'7'

-- `s.replace(/\\([0-7]{3})/g, …)`
unfoldable pub unescape_mountinfo_field : List ℕ → List ℕ
unescape_mountinfo_field [] = []
unescape_mountinfo_field (a ∷ []) = a ∷ []
unescape_mountinfo_field (a ∷ b ∷ []) = a ∷ b ∷ []
unescape_mountinfo_field (a ∷ b ∷ c ∷ []) = a ∷ b ∷ c ∷ []
unescape_mountinfo_field (a ∷ b ∷ c ∷ d ∷ s) =
    let taken = unescape_mountinfo_field s in
    let kept = unescape_mountinfo_field (b ∷ c ∷ d ∷ s) in
    if a == b'\\' && is_octal b && is_octal c && is_octal d
    then ((b - 48) * 64 + (c - 48) * 8 + (d - 48)) ∷ taken
    else a ∷ kept

pub record Mount : Type 0 where
  pub host_root : List ℕ
  pub mount_point : List ℕ

-- Fields 4 and 5 of a line that has them.
mount_of : List (List ℕ) → Option Mount
unfolding unescape_mountinfo_field
mount_of (id ∷ parent ∷ device ∷ root ∷ point ∷ rest) = some (record {
  host_root = unescape_mountinfo_field root;
  mount_point = unescape_mountinfo_field point;
})
mount_of _ = none

unfoldable pub mounts_of : List (List ℕ) → List Mount
unfolding mount_of split_codes
mounts_of [] = []
mounts_of (line ∷ lines) = elim (mount_of (split_codes 32 line)) [
  | none ↦ mounts_of lines
  | some m ↦ m ∷ mounts_of lines
]

-- The stable sort, the longest mount point first.
unfoldable pub place : Mount → List Mount → List Mount
place m [] = m ∷ []
place m (n ∷ ms) =
    let later = place m ms in
    if leb (length n.mount_point) (length m.mount_point) then m ∷ n ∷ ms else n ∷ later

unfoldable pub sort_mounts : List Mount → List Mount
unfolding place
sort_mounts [] = []
sort_mounts (m ∷ ms) = place m (sort_mounts ms)

unfoldable pub ends_in_slash : List ℕ → Bool
ends_in_slash [] = false
ends_in_slash (c ∷ []) = c == b'/'
ends_in_slash (c ∷ d ∷ s) = ends_in_slash (d ∷ s)

-- The mount point with a slash at its end.
abbrev pub prefix_of : List ℕ → List ℕ
prefix_of point = if ends_in_slash point then point else point ++ b'/' ∷ []

-- `join` of two paths, one of which may end in a slash or start with one. Neither has a doubled
-- slash or a dot for a segment, as the kernel writes none.
unfoldable pub join : List ℕ → List ℕ → List ℕ
join base rest =
    let one = (if ends_in_slash base then base else base ++ b'/' ∷ []) in
    one ++ (if starts (b'/' ∷ []) rest then drop 1 rest else rest)

-- The loop over the sorted mounts.
unfoldable pub first_match : List ℕ → List Mount → Option (List ℕ)
unfolding join
first_match path [] = none
first_match path (m ∷ ms) =
    let later = first_match path ms in
    if codes_eq path m.mount_point
    then some m.host_root
    else if starts (prefix_of m.mount_point) path
    then some (join m.host_root (drop (length m.mount_point) path))
    else later

-- `none` where the mount table cannot be read.
unfoldable pub resolve_host_path : Option (List ℕ) → List ℕ → Option (List ℕ)
unfolding first_match sort_mounts mounts_of split_codes
resolve_host_path none path = none
resolve_host_path (some table) path =
    first_match path (sort_mounts (mounts_of (split_codes 10 table)))

-- The command that is run on the host.
unfoldable pub shell_command : (script out_dir : List ℕ) → List ℕ
unfolding shell_quote
shell_command script out_dir =
    shell_quote script ++ (codes " bug-report --to " ++ shell_quote out_dir)
