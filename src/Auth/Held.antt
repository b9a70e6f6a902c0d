-- ===== src/Auth/Held.antt =====
-- Which tokens open the gate: those that the file at the path held at some request.
use signalk_doctor_server.Common.{
  ◌≡◌, ◌≢◌, refl, ap, subst, ◌∙◌, eq_refl, ◌⊎◌, inl, inr, Bool, true, false, Option, none, some,
  List, [], ◌∷◌, ℕ, String, str_eq, eq_iff, arith, if◌then◌else◌, In,
}
use signalk_doctor_server.Common.Text.{codes_eq, codes_eq_sound, trim}
use signalk_doctor_server.Auth.{
  Cache, no_cache, Files, filled, from_file, kept, at_path, cached, loaded, load_token, Headers,
  extract_token, passed, refused, compared, same_token, require_token,
}

-- What a request could read: its path and the token in the file there.
abbrev pub Sight : Type 0
Sight = String × Option (List ℕ)

abbrev pub sight : String → Files → Sight
sight path files = (path, from_file (files path))

-- The sights of the requests so far, and the cache after them.
pub data Served : List Sight → Cache → Type 0 where
  start : Served [] no_cache
  request :
      {seen : List Sight} {c : Cache} (path : String) (files : Files) (h : Headers)
      → Served seen c
      → Served (sight path files ∷ seen) (require_token path files h c).0

-- The cached token was seen at its path.
abbrev WasSeen : List Sight → Cache → Type 0
WasSeen seen c = (path : String) (t : List ℕ) → cached c path ≡ some t → In (path, some t) seen

filled-some : (s t : List ℕ) → filled s ≡ some t → (s ≡ t) × (t ≢ [])
filled-some [] t h = cc h
filled-some (c ∷ s) t h = let e : c ∷ s ≡ t = cc in (e, λ k. cc)

-- What is cached for a path after a token was kept for one.
cached-kept :
    (path path' : String) (t u : List ℕ)
    → cached (record { token = some t; from_path = some path }) path' ≡ some u
    → (path ≡ path') × (t ≡ u)
unfolding cached at_path
cached-kept path path' t u h =
    by_test (str_eq path path') (λ e. ground (eq_iff path path', e, arith)) h
  where
    by_test :
        (b : Bool)
        → (b ≡ true → path ≡ path')
        → (if b then filled t else none) ≡ some u
        → (path ≡ path') × (t ≡ u)
    by_test true same k = (same refl, (filled-some t u k).0)
    by_test false same k = cc k

kept-WasSeen :
    (path : String) (o : Option (List ℕ)) (seen : List Sight) (c : Cache)
    → WasSeen seen c
    → WasSeen ((path, o) ∷ seen) (kept c path o).0
unfolding kept
kept-WasSeen path none seen c h = λ p t k. inr (h p t k)
kept-WasSeen path (some u) seen c h = λ p t k. let (e, f) = cached-kept path p u t k in inl (cc)

loaded-WasSeen :
    (path : String) (files : Files) (seen : List Sight) (c : Cache) (o : Option (List ℕ))
    → WasSeen seen c
    → WasSeen (sight path files ∷ seen) (loaded c path files o).0
unfolding loaded
loaded-WasSeen path files seen c (some t) h = λ p u k. inr (h p u k)
loaded-WasSeen path files seen c none h = kept-WasSeen path (from_file (files path)) seen c h

Served-WasSeen : {seen : List Sight} {c : Cache} → Served seen c → WasSeen seen c
unfolding require_token load_token cached at_path
Served-WasSeen start = λ p t k. cc k
Served-WasSeen (request {seen = seen} {c = c} path files h r) =
    loaded-WasSeen path files seen c (cached c path) (Served-WasSeen r)

filled_keeps : (t : List ℕ) → t ≢ [] → filled t ≡ some t
filled_keeps [] n = absurd (n refl)
filled_keeps (c ∷ t) n = refl

from_file_filled : (o : Option (List ℕ)) (u : List ℕ) → from_file o ≡ some u → u ≢ []
from_file_filled none u h = cc h
from_file_filled (some raw) u h = (filled-some (trim raw) u h).1

cached_filled : (c : Cache) (path : String) (t : List ℕ) → cached c path ≡ some t → t ≢ []
unfolding cached
cached_filled c path t h = by_test (at_path c.from_path path) c.token h
  where
    by_test :
        (b : Bool) (o : Option (List ℕ))
        → (if b then elim o [ none ↦ none | some u ↦ filled u ] else none) ≡ some t
        → t ≢ []
    by_test false o k = cc k
    by_test true none k = cc k
    by_test true (some u) k = (filled-some u t k).1

-- What a load gives is the token that is cached afterwards, and not empty.
load_token-cached :
    (path : String) (files : Files) (c : Cache) (t : List ℕ)
    → (load_token c path files).1 ≡ some t
    → (cached (load_token c path files).0 path ≡ some t) × (t ≢ [])
unfolding load_token loaded kept cached at_path
load_token-cached path files c t = by_cached (cached c path) refl
  where
    by_file :
        (o : Option (List ℕ))
        → from_file (files path) ≡ o
        → (kept c path o).1 ≡ some t
        → (cached (kept c path o).0 path ≡ some t) × (t ≢ [])
    by_file none e k = cc k
    by_file (some u) e k =
        let same : u ≡ t = cc in
        let n = from_file_filled (files path) u e in
        (rw (eq_refl path) (filled_keeps u n ∙ ap (λ x. some x) same), subst (λ x. x ≢ []) same n)

    by_cached :
        (o : Option (List ℕ))
        → cached c path ≡ o
        → (loaded c path files o).1 ≡ some t
        → (cached (loaded c path files o).0 path ≡ some t) × (t ≢ [])
    by_cached none e k = by_file (from_file (files path)) refl k
    by_cached (some u) e k = (e ∙ k, cached_filled c path t (e ∙ k))

compared_passes :
    (expected got : Option (List ℕ))
    → compared expected got ≡ passed
    → (t : List ℕ) × (expected ≡ some t) × (got ≡ some t)
unfolding compared same_token
compared_passes none got h = cc h
compared_passes (some t) none h = cc h
compared_passes (some t) (some u) h = by_test (codes_eq u t) (codes_eq_sound u t) h
  where
    by_test :
        (b : Bool)
        → (b ≡ true → u ≡ t)
        → (if b then passed else refused 401 "unauthorized") ≡ passed
        → (x : List ℕ) × (some t ≡ some x) × (some u ≡ some x)
    by_test true same k = (t, refl, ap (λ x. some x) (same refl))
    by_test false same k = cc k

-- Whatever requests came before, with whatever paths and files: a request passes only with a token
-- that the file at its own path held at this request or at an earlier one, and never with an empty
-- one. So the tokens of a path that is no longer set do not pass.
pub require_token-WasHeld :
    {seen : List Sight} {c : Cache}
    → Served seen c
    → (path : String) (files : Files) (h : Headers) → (require_token path files h c).1 ≡ passed
    → (t : List ℕ) × (extract_token h ≡ some t)
      × (t ≢ [])
      × In (path, some t) (sight path files ∷ seen)
unfolding require_token
require_token-WasHeld {c = c} r path files h k =
    let (t, e, g) = compared_passes (load_token c path files).1 (extract_token h) k in
    let (l, n) = load_token-cached path files c t e in
    (t, g, n, Served-WasSeen (request path files h r) path t l)

refused_code :
    (expected got : Option (List ℕ)) (code : ℕ) (e : String)
    → compared expected got ≡ refused code e
    → (code ≡ 401) ⊎ (code ≡ 503)
unfolding compared
refused_code none got code e k = inr (cc)
refused_code (some t) got code e k = by_test (same_token got t) k
  where
    by_test :
        (b : Bool)
        → (if b then passed else refused 401 "unauthorized") ≡ refused code e
        → (code ≡ 401) ⊎ (code ≡ 503)
    by_test true h = cc h
    by_test false h = inl (cc)

pub require_token_refused :
    (path : String) (files : Files) (h : Headers) (c : Cache) (code : ℕ) (e : String)
    → (require_token path files h c).1 ≡ refused code e
    → (code ≡ 401) ⊎ (code ≡ 503)
unfolding require_token
require_token_refused path files h c code e k =
    refused_code (load_token c path files).1 (extract_token h) code e k
