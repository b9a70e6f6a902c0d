-- ===== src/Drift/Installed/Walk.antt =====
-- What one walk over the candidates proves.
use signalk_doctor_server.Common.{
  ℕ, ◌≡◌, ◌≢◌, refl, ◌⊎◌, inl, inr, Bool, true, false, Option, none, some, List, [], ◌∷◌, String,
  if◌then◌else◌, All, In, Empty,
}
use signalk_doctor_server.Common.Json.{Json, null, num, bool, str, arr, obj, Fields, get_field}
use signalk_doctor_server.Errors.{CategorizedError}
use signalk_doctor_server.Drift.Installed.Tar.{first_tar_entry}
use signalk_doctor_server.Drift.Installed.{
  FetchResult, value, error, ContainerProbe, ReadOne, found, absent, failed, crashed, is_not_found,
  describe_read_error, Look, version, nothing, ends, with_version, look_json, look_entry, look_at,
  read_version_at,
}

module _ (parse : List ℕ → Option Json) (probe : ContainerProbe) where
  -- The archive at the path holds a package.json with the version, which is not empty.
  abbrev pub HasVersion : String → String → Type 0
  HasVersion path v =
      (buf entry : List ℕ) × (fs : Fields) × (probe.fetch path ≡ value buf)
      × (first_tar_entry buf ≡ some entry)
      × (parse entry ≡ some (obj fs))
      × (get_field "version" (obj fs) ≡ some (str v))
      × (v ≢ "")

  -- Nothing usable is there, and the read itself did not fail.
  abbrev pub Miss : String → Type 0
  Miss path = look_at parse (probe.fetch path) ≡ nothing

  abbrev pub FailsAt : String → String → Type 0
  FailsAt path detail =
      (e : CategorizedError) × (probe.fetch path ≡ error e)
      × (is_not_found e.kind ≡ false)
      × (detail ≡ describe_read_error e)

  abbrev pub NullAt : String → Type 0
  NullAt path =
      (buf entry : List ℕ) × (probe.fetch path ≡ value buf)
      × (first_tar_entry buf ≡ some entry)
      × (parse entry ≡ some null)

  -- The first candidate that is no miss has the version.
  abbrev pub FirstVersion : List String → String → Type 0
  FirstVersion [] v = Empty
  FirstVersion (path ∷ paths) v = HasVersion path v ⊎ (Miss path × FirstVersion paths v)

  abbrev pub Walked : List String → ReadOne → Type 0
  Walked paths (found v) = FirstVersion paths v
  Walked paths absent = All Miss paths
  Walked paths (failed detail) = (path : String) × In path paths × FailsAt path detail
  Walked paths crashed = (path : String) × In path paths × NullAt path

  -- A look says what is at the path.
  abbrev Shows : String → Look → Type 0
  Shows path (version v) = HasVersion path v
  Shows path nothing = Unit
  Shows path (ends (found v)) = Empty
  Shows path (ends absent) = Empty
  Shows path (ends (failed detail)) = FailsAt path detail
  Shows path (ends crashed) = NullAt path

  version-Shows :
      (path : String) (buf entry : List ℕ) (fs : Fields) (o : Option Json)
      → probe.fetch path ≡ value buf
      → first_tar_entry buf ≡ some entry
      → parse entry ≡ some (obj fs)
      → get_field "version" (obj fs) ≡ o
      → Shows path (with_version o)
  version-Shows path buf entry fs none a b c d = tt
  version-Shows path buf entry fs (some null) a b c d = tt
  version-Shows path buf entry fs (some num) a b c d = tt
  version-Shows path buf entry fs (some (bool x)) a b c d = tt
  version-Shows path buf entry fs (some (str String.[])) a b c d = tt
  version-Shows path buf entry fs (some (str (String.◌∷◌ x s))) a b c d =
      (buf, entry, fs, a, b, c, d, λ e. cc)
  version-Shows path buf entry fs (some (arr vs)) a b c d = tt
  version-Shows path buf entry fs (some (obj x)) a b c d = tt

  json-Shows :
      (path : String) (buf entry : List ℕ) (o : Option Json)
      → probe.fetch path ≡ value buf
      → first_tar_entry buf ≡ some entry
      → parse entry ≡ o
      → Shows path (look_json o)
  unfolding look_json
  json-Shows path buf entry none a b c = tt
  json-Shows path buf entry (some null) a b c = (buf, entry, a, b, c)
  json-Shows path buf entry (some num) a b c = tt
  json-Shows path buf entry (some (bool x)) a b c = tt
  json-Shows path buf entry (some (str s)) a b c = tt
  json-Shows path buf entry (some (arr vs)) a b c = tt
  json-Shows path buf entry (some (obj fs)) a b c =
      version-Shows path buf entry fs (get_field "version" (obj fs)) a b c refl

  entry-Shows :
      (path : String) (buf : List ℕ) (o : Option (List ℕ))
      → probe.fetch path ≡ value buf
      → first_tar_entry buf ≡ o
      → Shows path (look_entry parse o)
  unfolding look_entry
  entry-Shows path buf none a b = tt
  entry-Shows path buf (some entry) a b = json-Shows path buf entry (parse entry) a b refl

  error-Shows :
      (path : String) (e : CategorizedError) (b : Bool)
      → probe.fetch path ≡ error e
      → is_not_found e.kind ≡ b
      → Shows path (if b then nothing else ends (failed (describe_read_error e)))
  error-Shows path e true a h = tt
  error-Shows path e false a h = (e, a, h, refl)

  look-Shows :
      (path : String) (x : FetchResult) → probe.fetch path ≡ x → Shows path (look_at parse x)
  unfolding look_at
  look-Shows path (value buf) a = entry-Shows path buf (first_tar_entry buf) a refl
  look-Shows path (error e) a = error-Shows path e (is_not_found e.kind) a refl

  later :
      (path : String) (paths : List String) (x : ReadOne)
      → Miss path
      → Walked paths x
      → Walked (path ∷ paths) x
  later path paths (found v) m w = inr (m, w)
  later path paths absent m w = (m, w)
  later path paths (failed detail) m (at, within, f) = (at, inr within, f)
  later path paths crashed m (at, within, f) = (at, inr within, f)

  -- Whatever a walk comes back with is so.
  pub read_version_at-Walked :
      (paths : List String) → Walked paths (read_version_at parse probe paths)
  unfolding read_version_at
  read_version_at-Walked [] = tt
  read_version_at-Walked (path ∷ paths) =
      by_look (look_at parse (probe.fetch path)) refl (look-Shows path (probe.fetch path) refl)
        (read_version_at-Walked paths)
    where
      by_look :
          (x : Look)
          → look_at parse (probe.fetch path) ≡ x
          → Shows path x
          → Walked paths (read_version_at parse probe paths)
          → Walked (path ∷ paths) (elim x [
            | version v ↦ found v
            | nothing ↦ read_version_at parse probe paths
            | ends r ↦ r
          ])
      by_look (version v) e s ih = inl s
      by_look nothing e s ih = later path paths (read_version_at parse probe paths) e ih
      by_look (ends (found v)) e s ih = elim s [ ]
      by_look (ends absent) e s ih = elim s [ ]
      by_look (ends (failed detail)) e s ih = (path, inl refl, s)
      by_look (ends crashed) e s ih = (path, inl refl, s)
