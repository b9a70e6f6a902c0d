-- ===== src/Drift/Installed/Paths.antt =====
-- src/drift/installed-packages.ts: where a copy of a package may lie in the container.
pub mod Coverage
use Prim.Native.String
use signalk_doctor_server.Common.Strings.{is_empty, split_at}
use signalk_doctor_server.Common.{
  ℕ, zero, suc, not, Option, List, [], ◌∷◌, ◌++◌, String, str_eq, ◌^^◌, if◌then◌else◌, any, filter,
  length, take, get_or,
}

-- SIGNALK_DOCTOR_TARGET_CONF_DIR and SIGNALK_DOCTOR_TARGET_APP_DIR, where they are set.
pub record Target : Type 0 where
  pub conf_dir_var : Option String
  pub app_dir_var : Option String

abbrev pub data_dir_root : Target → String
data_dir_root t = get_or t.conf_dir_var "/home/node/.signalk"

abbrev pub app_dir_root : Target → String
app_dir_root t = get_or t.app_dir_var "/home/node/signalk"

abbrev pub candidate : String → String → String
candidate prefix name = prefix ^^ "/node_modules/" ^^ name ^^ "/package.json"

abbrev pub data_dir_candidate_paths : Target → String → List String
data_dir_candidate_paths t name = candidate (data_dir_root t) name ∷ []

abbrev pub segments : String → List String
segments base = filter (λ s. not (is_empty s)) (split_at b'/' base)

-- An absolute path, the root being the empty text.
unfoldable pub path_of : List String → String
path_of [] = ""
path_of (s ∷ ss) = "/" ^^ s ^^ path_of ss

-- The base and every directory above it, the deepest first.
unfoldable pub ancestors : ℕ → List String → List String
unfolding path_of
ancestors zero segs = "" ∷ []
ancestors (suc i) segs = path_of (take (suc i) segs) ∷ ancestors i segs

-- `seen` and `out` hold the same paths.
unfoldable pub add_candidates : String → List String → List String → List String
add_candidates name [] out = out
add_candidates name (prefix ∷ prefixes) out =
    add_candidates name prefixes
      (if any (str_eq (candidate prefix name)) out then out else out ++ candidate prefix name ∷ [])

abbrev pub prefixes_of : String → List String
prefixes_of base = ancestors (length (segments base)) (segments base)

unfoldable pub image_candidate_paths : Target → String → List String
unfolding add_candidates ancestors split_at
image_candidate_paths t name =
    add_candidates name (prefixes_of (app_dir_root t))
      (add_candidates name (prefixes_of (app_dir_root t ^^ "/node_modules/signalk-server")) [])
