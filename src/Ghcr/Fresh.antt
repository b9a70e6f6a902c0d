-- ===== src/Ghcr/Fresh.antt =====
-- What a listing hands out, and what the cache holds afterwards.
use signalk_doctor_server.Common.{
  ℕ, ◌-◌, ◌<◌, ◌≡◌, ◌≢◌, refl, ap, sym, subst, ◌∙◌, str_eq, eq_iff, ◌⊎◌, inl, inr, Bool, true,
  false, ◌&&◌, not, Option, none, some, List, String, arith, if◌then◌else◌, ltb, take_last,
  Bool-cases,
}
use signalk_doctor_server.Common.Maps.{Map, lookup, lookup-insert_self, lookup-insert_ne}
use signalk_doctor_server.Common.Strings.{truthy}
use signalk_doctor_server.Ghcr.Paging.{Pages, fetch_tag_list_iff}
use signalk_doctor_server.Ghcr.{
  first_page, CacheEntry, ttl_ms, max_manifests, Env, Ended, returned, threw, get_anon_token,
  fetch_tag_list, read_tags, ListTags, listed, not_listed, after_names, with_token, usable,
  from_cache, list_tags,
}
use signalk_doctor_server.Ghcr.Listing.{
  IsSound, IsListing, read_tags-IsSound, read_tags-Described, read_tags-Found, all_within,
}

abbrev pub AllSound : Map CacheEntry → Type 0
AllSound cache = (image : String) (e : CacheEntry) → lookup image cache ≡ some e → IsSound e.tags

-- Tags that are handed out are sound, and are what the cache holds for the image afterwards: the
-- entry from before, younger than six hours, or what the registry lists. The entries of other
-- images stay, and a listing that fails leaves the cache as it was.
abbrev pub IsFresh :
    Env → String → (now done : ℕ) → (before after : Map CacheEntry) → ListTags → Type 0
IsFresh env image now done before after (not_listed e) = after ≡ before
IsFresh env image now done before after (listed tags at) =
    IsSound tags
    × ((e : CacheEntry) × (lookup image after ≡ some e)
        × (e.tags ≡ tags)
        × (((lookup image before ≡ some e)
              × (now - e.fetched_at < 21600000)
              × (at ≡ env.iso e.fetched_at))
            ⊎ ((e.fetched_at ≡ done) × (at ≡ env.now_iso) × IsListing env image tags)))
    × ((other : String) → image ≢ other → lookup other after ≡ lookup other before)

module _ (env : Env) (image : String) (now done : ℕ) (cache : Map CacheEntry) where
  after_names-IsFresh :
      (token : String) (x : Ended (List String))
      → ((names : List String)
          → x ≡ returned names
          → (n : ℕ) × Pages env token n (some (first_page image)) names)
      → truthy (get_anon_token env image) ≡ some token
      → IsFresh env image now done cache
          (after_names env image token done cache x).0
          (after_names env image token done cache x).1
  unfolding after_names
  after_names-IsFresh token (threw e) pages t = refl
  after_names-IsFresh token (returned names) pages t =
      let tags = read_tags env image token (take_last max_manifests names) in
      let e : CacheEntry = record { tags = tags; fetched_at = done } in
      let last = take_last max_manifests names in
      let (n, ps) = pages names refl in
      let listing : IsListing env image tags = (
        token,
        names,
        n,
        t,
        ps,
        read_tags-Described env image token last last (all_within last last (λ x m. m)),
        read_tags-Found env image token last,
      ) in
      (
        read_tags-IsSound env image token names,
        (e, lookup-insert_self image e cache, refl, inr (refl, refl, listing)),
        λ other differ. lookup-insert_ne image other e cache differ,
      )

  -- The same of a result and of what is told of it.
  as_told :
      (p q : Map CacheEntry × ListTags)
      → some p ≡ some q
      → IsFresh env image now done cache p.0 p.1
      → IsFresh env image now done cache q.0 q.1
  as_told p q h = λ f.
      let same : p ≡ q = cc in
      subst (λ (z : Map CacheEntry × ListTags). IsFresh env image now done cache z.0 z.1) same f

  with_token-IsFresh :
      (fuel : ℕ) (o : Option String) (q : Map CacheEntry × ListTags)
      → truthy (get_anon_token env image) ≡ o
      → with_token fuel env image done cache o ≡ some q
      → IsFresh env image now done cache q.0 q.1
  unfolding with_token
  with_token-IsFresh fuel none q t h = as_told _ q h refl
  with_token-IsFresh fuel (some token) q t h =
      by_names (fetch_tag_list fuel env image token) (λ names e. e) h
    where
      by_names :
          (o : Option (Ended (List String)))
          → ((names : List String)
              → o ≡ some (returned names)
              → fetch_tag_list fuel env image token ≡ some (returned names))
          → elim o [
            | none ↦ none
            | some names ↦ some (after_names env image token done cache names)
          ]
            ≡ some q
          → IsFresh env image now done cache q.0 q.1
      by_names none f k = cc k
      by_names (some x) f k = as_told _ q k (
          after_names-IsFresh token x
            (λ names e.
              let (n, l, ps) =
                (fetch_tag_list_iff env fuel image token names).0 (f names (ap (λ y. some y) e)) in
              (n, ps))
            t)

  usable_young :
      (force : Bool) (o : Option CacheEntry) (e : CacheEntry)
      → usable force now o ≡ some e
      → (o ≡ some e) × (now - e.fetched_at < 21600000)
  unfolding usable
  usable_young force none e h = cc h
  usable_young force (some f) e h =
      by_test (not force && ltb (now - f.fetched_at) ttl_ms) (λ k. ground (k, arith)) h
    where
      by_test :
          (b : Bool)
          → (b ≡ true → now - f.fetched_at < 21600000)
          → (if b then some f else none) ≡ some e
          → (some f ≡ some e) × (now - e.fetched_at < 21600000)
      by_test true young k =
          let same : f ≡ e = cc in
          (k, subst (λ (x : CacheEntry). now - x.fetched_at < 21600000) same (young refl))
      by_test false young k = cc k

  from_cache-IsFresh :
      (fuel : ℕ) (o : Option CacheEntry) (q : Map CacheEntry × ListTags)
      → AllSound cache
      → ((e : CacheEntry)
          → o ≡ some e
          → (lookup image cache ≡ some e) × (now - e.fetched_at < 21600000))
      → from_cache fuel env image done cache o ≡ some q
      → IsFresh env image now done cache q.0 q.1
  unfolding from_cache
  from_cache-IsFresh fuel none q sound young h =
      with_token-IsFresh fuel (truthy (get_anon_token env image)) q refl h
  from_cache-IsFresh fuel (some e) q sound young h =
      let (there, y) = young e refl in
      as_told _ q h
        (sound image e there, (e, there, refl, inl (there, y, refl)), λ other differ. refl)

  kept-AllSound :
      (after : Map CacheEntry) (r : ListTags)
      → AllSound cache
      → IsFresh env image now done cache after r
      → AllSound after
  kept-AllSound after (not_listed e) sound same = subst AllSound (sym same) sound
  kept-AllSound after (listed tags at) sound (s, (e, there, same, age), others) = λ other f found.
      elim (Bool-cases (str_eq image other)) [
        | inl b ↦
            let at_image : image ≡ other = ground (eq_iff image other, b, arith) in
            let found_there : lookup image after ≡ some f =
              subst (λ x. lookup x after ≡ some f) (sym at_image) found in
            let two : some e ≡ some f = sym there ∙ found_there in
            let entry : e ≡ f = cc in subst IsSound (sym same ∙ ap (λ x. x.tags) entry) s
        | inr b ↦
            sound other f
              (sym (others other (λ k. ground (eq_iff image other, b, k, arith))) ∙ found)
      ]

-- Tags that are handed out are at most 80, each under the channel of its name, and are what the
-- cache holds for the image afterwards: the entry from before, younger than six hours and with its
-- own time, or what the registry lists now: of the last 80 names on its pages each that has a
-- manifest, with what the manifest says, and no other. The entries of other images stay, and a listing that fails leaves the cache as it was.
-- The cache was sound before, as the empty one is, and is so afterwards.
pub list_tags-IsFresh :
    (fuel : ℕ) (env : Env) (image : String) (force : Bool) (now done : ℕ)
    (cache after : Map CacheEntry) (r : ListTags)
    → AllSound cache
    → list_tags fuel env image force now done cache ≡ some (after, r)
    → IsFresh env image now done cache after r × AllSound after
unfolding list_tags
list_tags-IsFresh fuel env image force now done cache after r sound h =
    let fresh =
      from_cache-IsFresh env image now done cache fuel (usable force now (lookup image cache))
        (after, r) sound (usable_young env image now done cache force (lookup image cache)) h in
    (fresh, kept-AllSound env image now done cache after r sound fresh)
