-- ===== src/Probes/TimezoneDrift/Peers.antt =====
-- Which peers are read, and what is known of each.
use signalk_doctor_server.Common.{
  ◌≡◌, refl, sym, ap, ◌∙◌, Bool, true, false, ◌&&◌, ◌||◌, Option, none, some, List, [], ◌∷◌, ◌++◌,
  String, str_eq, eq_iff, arith, if◌then◌else◌, any, get_or,
}
use signalk_doctor_server.Common.Json.{
  Json, null, num, bool, str, arr, obj, Items, items, get_field, as_array,
}
use signalk_doctor_server.Common.Maps.{lookup, lookup-insert}
use signalk_doctor_server.Probes.TimezoneDrift.{
  without_slash, is_managed, add_name, add_raw, add_entries, place, sort, managed_peer_names,
  PeerAnswer, PeerZone, gone, unread, zone, peer_zone, PeerZones, add_peer, read_peers, listing,
  from_listing, read_peer_zones,
}

-- The entry of the listing has the name, with or without a slash in front.
abbrev pub carries_name : String → Json → Bool
carries_name q (str n) = str_eq q (without_slash n)
carries_name q null = false
carries_name q num = false
carries_name q (bool b) = false
carries_name q (arr vs) = false
carries_name q (obj fs) = false

abbrev pub names_it : String → Json → Bool
names_it q entry = any (carries_name q) (get_or (as_array (get_field "Names" entry)) [])

any-append_last :
    (q n : String) (names : List String)
    → any (str_eq q) (names ++ n ∷ []) ≡ any (str_eq q) names || str_eq q n
any-append_last q n [] = ground arith
any-append_last q n (m ∷ names) = ground (any-append_last q n names, arith)

any_there :
    (q n : String) (names : List String)
    → any (str_eq n) names ≡ true
    → str_eq q n ≡ true
    → any (str_eq q) names ≡ true
any_there q n names h e = let same : q ≡ n = ground (eq_iff q n, e, arith) in rw same h

any-add_name :
    (q n : String) (names : List String)
    → any (str_eq q) (add_name n names) ≡ str_eq q n || any (str_eq q) names
unfolding add_name
any-add_name q n names =
    by_test (any (str_eq n) names) (any_there q n names) (any-append_last q n names)
  where
    by_test :
        (b : Bool)
        → (b ≡ true → str_eq q n ≡ true → any (str_eq q) names ≡ true)
        → (any (str_eq q) (names ++ n ∷ []) ≡ any (str_eq q) names || str_eq q n)
        → any (str_eq q) (if b then names else names ++ n ∷ []) ≡ str_eq q n || any (str_eq q) names
    by_test true there e = ground (there refl, arith)
    by_test false there e = ground (e, arith)

managed_name :
    (q n : String) (names : List String) (found managed : Bool)
    → is_managed q ≡ managed
    → str_eq q n ≡ found
    → any (str_eq q) (if is_managed n then add_name n names else names)
      ≡ (found && managed) || any (str_eq q) names
managed_name q n names true managed e f =
    let same : q ≡ n = ground (eq_iff q n, f, arith) in
    let other : is_managed n ≡ managed = ap is_managed (sym same) ∙ e in
    rw other (by_managed managed)
  where
    by_managed :
        (b : Bool)
        → any (str_eq q) (if b then add_name n names else names) ≡ b || any (str_eq q) names
    by_managed true = ground (any-add_name q n names, f, arith)
    by_managed false = refl
managed_name q n names false managed e f = by_managed (is_managed n)
  where
    by_managed :
        (b : Bool) → any (str_eq q) (if b then add_name n names else names) ≡ any (str_eq q) names
    by_managed true = ground (any-add_name q n names, f, arith)
    by_managed false = refl

any-add_raw :
    (q : String) (raw : List Json) (names : List String)
    → any (str_eq q) (add_raw raw names)
      ≡ (any (carries_name q) raw && is_managed q) || any (str_eq q) names
unfolding add_raw
any-add_raw q [] names = refl
any-add_raw q (null ∷ raw) names = any-add_raw q raw names
any-add_raw q (num ∷ raw) names = any-add_raw q raw names
any-add_raw q (bool b ∷ raw) names = any-add_raw q raw names
any-add_raw q (arr vs ∷ raw) names = any-add_raw q raw names
any-add_raw q (obj fs ∷ raw) names = any-add_raw q raw names
any-add_raw q (str n ∷ raw) names =
    any-add_raw q raw
      (if is_managed (without_slash n) then add_name (without_slash n) names else names)
    ∙ ap (λ x. (any (carries_name q) raw && is_managed q) || x)
        (managed_name q (without_slash n) names (str_eq q (without_slash n)) (is_managed q) refl
          refl)
    ∙ regroup (any (carries_name q) raw) (is_managed q) (str_eq q (without_slash n))
        (any (str_eq q) names)
  where
    regroup : (a b c d : Bool) → ((a && b) || ((c && b) || d)) ≡ (((c || a) && b) || d)
    regroup a b c d = ground arith

any-add_entries :
    (q : String) (listed : List Json) (names : List String)
    → any (str_eq q) (add_entries listed names)
      ≡ (any (names_it q) listed && is_managed q) || any (str_eq q) names
unfolding add_entries
any-add_entries q [] names = refl
any-add_entries q (entry ∷ listed) names =
    any-add_entries q listed (add_raw (get_or (as_array (get_field "Names" entry)) []) names)
    ∙ ap (λ x. (any (names_it q) listed && is_managed q) || x)
        (any-add_raw q (get_or (as_array (get_field "Names" entry)) []) names)
    ∙ regroup (any (names_it q) listed) (is_managed q) (names_it q entry) (any (str_eq q) names)
  where
    regroup : (a b c d : Bool) → ((a && b) || ((c && b) || d)) ≡ (((c || a) && b) || d)
    regroup a b c d = ground arith

any-place :
    (q n : String) (names : List String)
    → any (str_eq q) (place n names) ≡ str_eq q n || any (str_eq q) names
unfolding place
any-place q n [] = refl
any-place q n (m ∷ names) = ground (any-place q n names, arith)

any-sort : (q : String) (names : List String) → any (str_eq q) (sort names) ≡ any (str_eq q) names
unfolding sort
any-sort q [] = refl
any-sort q (n ∷ names) = any-place q n (sort names) ∙ ap (λ x. str_eq q n || x) (any-sort q names)

-- Its zone is known, be it unset.
abbrev pub known : PeerZone → Option (Option String)
known gone = none
known (unread e) = none
known (zone tz) = some tz

-- The value under a name after a loop over names.
abbrev or_old : Bool → Option (Option String) → Option (Option String) → Option (Option String)
or_old listed none old = old
or_old listed (some tz) old = if listed then some tz else old

or_old-false : (k old : Option (Option String)) → or_old false k old ≡ old
or_old-false none old = refl
or_old-false (some tz) old = refl

or_old_same :
    (l : Bool) (k old : Option (Option String)) → or_old l k (or_old true k old) ≡ or_old true k old
or_old_same l none old = refl
or_old_same true (some tz) old = refl
or_old_same false (some tz) old = refl

module _ (inspect : String → PeerAnswer) where
  lookup-add_peer :
      (q name : String) (p : PeerZone) (z : PeerZones)
      → lookup q (add_peer name p z).peers ≡ or_old (str_eq name q) (known p) (lookup q z.peers)
  unfolding add_peer
  lookup-add_peer q name gone z = refl
  lookup-add_peer q name (unread e) z = refl
  lookup-add_peer q name (zone tz) z = lookup-insert name q tz z.peers

  lookup-read_peers :
      (q : String) (names : List String) (z : PeerZones)
      → lookup q (read_peers inspect names z).peers
        ≡ or_old (any (str_eq q) names) (known (peer_zone q (inspect q))) (lookup q z.peers)
  unfolding read_peers
  lookup-read_peers q [] z = sym (or_old-false (known (peer_zone q (inspect q))) (lookup q z.peers))
  lookup-read_peers q (name ∷ names) z =
      lookup-read_peers q names (add_peer name (peer_zone name (inspect name)) z)
      ∙ ap (or_old (any (str_eq q) names) (known (peer_zone q (inspect q))))
          (lookup-add_peer q name (peer_zone name (inspect name)) z)
      ∙ by_name (str_eq q name) refl
    where
      by_name :
          (b : Bool)
          → str_eq q name ≡ b
          → or_old
              (any (str_eq q) names)
              (known (peer_zone q (inspect q)))
              (or_old (str_eq name q) (known (peer_zone name (inspect name))) (lookup q z.peers))
            ≡ or_old
                (b || any (str_eq q) names)
                (known (peer_zone q (inspect q)))
                (lookup q z.peers)
      by_name true e =
          let same : name ≡ q = ground (eq_iff q name, e, arith) in
          let here : str_eq name q ≡ true = ground (eq_iff name q, same, arith) in
          ap
            (λ n.
              or_old (any (str_eq q) names) (known (peer_zone q (inspect q)))
                (or_old (str_eq name q) (known (peer_zone n (inspect n))) (lookup q z.peers)))
            same
          ∙ ap
              (λ b.
                or_old (any (str_eq q) names) (known (peer_zone q (inspect q)))
                  (or_old b (known (peer_zone q (inspect q))) (lookup q z.peers)))
              here
          ∙ or_old_same (any (str_eq q) names) (known (peer_zone q (inspect q))) (lookup q z.peers)
      by_name false e =
          let other : str_eq name q ≡ false = ground (eq_iff q name, eq_iff name q, e, arith) in
          ap (or_old (any (str_eq q) names) (known (peer_zone q (inspect q)))) (
            ap (λ b. or_old b (known (peer_zone name (inspect name))) (lookup q z.peers)) other
            ∙ or_old-false (known (peer_zone name (inspect name))) (lookup q z.peers))

  -- A container is among the peers exactly if the list names it, with or without a slash, it is
  -- managed and no job, and its inspection gives an environment; then it stands with its first TZ
  -- entry, or as unset. So no peer that fails to be read hides another.
  pub read_peer_zones_exact :
      (q : String) (vs : Items)
      → lookup q (read_peer_zones (listing (arr vs)) inspect).0 ≡ (
          if any (names_it q) (items vs) && is_managed q
          then known (peer_zone q (inspect q))
          else none)
  unfolding read_peer_zones from_listing managed_peer_names lookup
  read_peer_zones_exact q vs =
      lookup-read_peers q (sort (add_entries (items vs) [])) (record { peers = []; errors = [] })
      ∙ ap (λ b. or_old b (known (peer_zone q (inspect q))) none)
          (any-sort q (add_entries (items vs) []) ∙ any-add_entries q (items vs) [])
      ∙ by_test (any (names_it q) (items vs) && is_managed q) (known (peer_zone q (inspect q)))
    where
      by_test :
          (b : Bool) (k : Option (Option String))
          → or_old (b || false) k none ≡ (if b then k else none)
      by_test true none = refl
      by_test true (some tz) = refl
      by_test false none = refl
      by_test false (some tz) = refl
