-- ===== src/Ghcr/Listing.antt =====
-- The tags of a listing, against the names and manifests of the registry.
use signalk_doctor_server.Common.{
  ℕ, suc, ◌-◌, ◌≤◌, ◌≡◌, refl, ◌⊎◌, inl, inr, Option, none, some, List, [], ◌∷◌, String, arith,
  length, take_last, length-drop, All, All-map, In,
}
use signalk_doctor_server.Common.Strings.{truthy}
use signalk_doctor_server.Ghcr.Paging.{Pages}
use signalk_doctor_server.Images.Tags.{classify_channel}
use signalk_doctor_server.Ghcr.{
  Tag, first_page, Env, get_anon_token, manifest_of, tag_here, read_tags,
}

-- At most 80 tags, each under the channel of its name.
abbrev pub IsSound : List Tag → Type 0
IsSound tags = (length tags ≤ 80) × All (λ t. t.channel ≡ classify_channel t.name) tags

tag_here-IsClassified :
    (name : String) (o : Option (String × String)) (later : List Tag)
    → All (λ t. t.channel ≡ classify_channel t.name) later
    → All (λ t. t.channel ≡ classify_channel t.name) (tag_here name o later)
unfolding tag_here
tag_here-IsClassified name none later h = h
tag_here-IsClassified name (some (digest, pushed)) later h = (refl, h)

length-tag_here :
    (name : String) (o : Option (String × String)) (later : List Tag)
    → length (tag_here name o later) ≤ suc (length later)
unfolding tag_here
length-tag_here name none later = omega arith
length-tag_here name (some (digest, pushed)) later = omega arith

length-read_tags :
    (env : Env) (image token : String) (names : List String)
    → length (read_tags env image token names) ≤ length names
unfolding read_tags
length-read_tags env image token [] = omega arith
length-read_tags env image token (name ∷ names) = omega (
  arith,
  length-read_tags env image token names,
  length-tag_here name (manifest_of env (env.manifest image name token))
      (read_tags env image token names),
)

read_tags-IsClassified :
    (env : Env) (image token : String) (names : List String)
    → All (λ t. t.channel ≡ classify_channel t.name) (read_tags env image token names)
unfolding read_tags
read_tags-IsClassified env image token [] = tt
read_tags-IsClassified env image token (name ∷ names) =
    tag_here-IsClassified name _ _ (read_tags-IsClassified env image token names)

pub read_tags-IsSound :
    (env : Env) (image token : String) (names : List String)
    → IsSound (read_tags env image token (take_last 80 names))
read_tags-IsSound env image token names = (
  omega (
    arith,
    length-read_tags env image token (take_last 80 names),
    length-drop (length names - 80) names,
  ),
  read_tags-IsClassified env image token (take_last 80 names),
)

abbrev pub Named : List Tag → String → Type 0
Named tags name = (t : Tag) × In t tags × (t.name ≡ name)

-- The tags are those of the names on the registry's pages: of the last 80, each that has a
-- manifest, with what the manifest says, and no other.
abbrev pub IsListing : Env → String → List Tag → Type 0
IsListing env image tags =
    (token : String) × (names : List String) × (n : ℕ) × (truthy (get_anon_token env image)
      ≡ some token)
    × Pages env token n (some (first_page image)) names
    × All
        (λ t.
          In t.name (take_last 80 names)
          × (manifest_of env (env.manifest image t.name token) ≡ some (t.digest, t.pushed_at)))
        tags
    × All (λ name. (manifest_of env (env.manifest image name token) ≡ none) ⊎ Named tags name)
        (take_last 80 names)

module _ (env : Env) (image token : String) where
  pub read_tags-Described :
      (ns names : List String)
      → All (λ name. In name ns) names
      → All
          (λ t.
            In t.name ns
            × (manifest_of env (env.manifest image t.name token) ≡ some (t.digest, t.pushed_at)))
          (read_tags env image token names)
  unfolding read_tags tag_here
  read_tags-Described ns [] h = tt
  read_tags-Described ns (name ∷ names) (m, h) =
      by_manifest (manifest_of env (env.manifest image name token)) refl
        (read_tags-Described ns names h)
    where
      by_manifest :
          (o : Option (String × String))
          → manifest_of env (env.manifest image name token) ≡ o
          → All
              (λ t.
                In t.name ns
                × (manifest_of env (env.manifest image t.name token)
                    ≡ some (t.digest, t.pushed_at)))
              (read_tags env image token names)
          → All
              (λ t.
                In t.name ns
                × (manifest_of env (env.manifest image t.name token)
                    ≡ some (t.digest, t.pushed_at)))
              (tag_here name o (read_tags env image token names))
      by_manifest none e later = later
      by_manifest (some (digest, pushed)) e later = ((m, e), later)

  Named-tag_here :
      (name other : String) (o : Option (String × String)) (later : List Tag)
      → Named later other
      → Named (tag_here name o later) other
  unfolding tag_here
  Named-tag_here name other none later h = h
  Named-tag_here name other (some (digest, pushed)) later (t, m, e) = (t, inr m, e)

  abbrev pub Found : List Tag → String → Type 0
  Found tags name = (manifest_of env (env.manifest image name token) ≡ none) ⊎ Named tags name

  pub read_tags-Found : (names : List String) → All (Found (read_tags env image token names)) names
  unfolding read_tags tag_here
  read_tags-Found [] = tt
  read_tags-Found (name ∷ names) = (
    here (manifest_of env (env.manifest image name token)) refl,
    All-map (Found (read_tags env image token names)) (Found _) names
        (λ other h. elim h [
          | inl e ↦ inl e
          | inr m ↦ inr (
              Named-tag_here name other (manifest_of env (env.manifest image name token))
                (read_tags env image token names) m)
        ])
        (read_tags-Found names),
  )
    where
      here :
          (o : Option (String × String))
          → manifest_of env (env.manifest image name token) ≡ o
          → Found (tag_here name o (read_tags env image token names)) name
      here none e = inl e
      here (some (digest, pushed)) e = inr (_, inl refl, refl)

pub all_within :
    (xs names : List String) → ((x : String) → In x names → In x xs) → All (λ n. In n xs) names
all_within xs [] h = tt
all_within xs (n ∷ names) h = (h n (inl refl), all_within xs names (λ x m. h x (inr m)))
