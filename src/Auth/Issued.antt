-- ===== src/Auth/Issued.antt =====
-- The token that the session route hands out, as a request brings it back.
use signalk_doctor_server.Common.{
  ◌≡◌, ◌≢◌, ◌↔◌, refl, ap, sym, subst, ◌∙◌, ◌⊎◌, inl, inr, Bool, true, false, ◌&&◌, Option, none,
  some, List, [], ◌∷◌, ◌++◌, ℕ, String, if◌then◌else◌, any,
}
use signalk_doctor_server.Common.Text.{
  codes, codes_eq, codes_eq_sound, codes_eq_refl, is_space, is_nil, trim, trim_start, trim_end,
  is_line_end, strip_i,
}
use signalk_doctor_server.Auth.{
  Cache, Files, filled, from_file, kept, cached, loaded, load_token, after_bearer, bearer,
  bearer_rest, Headers, or_x, with_authorization, extract_token, passed, refused, compared,
  same_token, require_token, token, unavailable, session_of, get_session,
}

-- No white space in front.
abbrev IsSolid : List ℕ → Type 0
IsSolid [] = Unit
IsSolid (c ∷ t) = is_space c ≡ false

trim_start-IsSolid : (s : List ℕ) → IsSolid (trim_start s)
unfolding trim_start
trim_start-IsSolid [] = tt
trim_start-IsSolid (c ∷ s) = by_test (is_space c) refl (trim_start-IsSolid s)
  where
    by_test :
        (b : Bool)
        → is_space c ≡ b
        → IsSolid (trim_start s)
        → IsSolid (if b then trim_start s else c ∷ s)
    by_test true e later = later
    by_test false e later = e

trim_start_solid : (s : List ℕ) → IsSolid s → trim_start s ≡ s
unfolding trim_start
trim_start_solid [] h = refl
trim_start_solid (c ∷ s) h = rw h refl

trim_end-IsSolid : (s : List ℕ) → IsSolid s → IsSolid (trim_end s)
unfolding trim_end
trim_end-IsSolid [] h = tt
trim_end-IsSolid (c ∷ s) h = rw h h

trim_end-trim_end : (s : List ℕ) → trim_end (trim_end s) ≡ trim_end s
unfolding trim_end
trim_end-trim_end [] = refl
trim_end-trim_end (c ∷ s) = by_test (is_space c && is_nil (trim_end s)) refl (trim_end-trim_end s)
  where
    by_test :
        (b : Bool)
        → (is_space c && is_nil (trim_end s)) ≡ b
        → trim_end (trim_end s) ≡ trim_end s
        → trim_end (if b then [] else c ∷ trim_end s) ≡ (if b then [] else c ∷ trim_end s)
    by_test true e later = refl
    by_test false e later = rw (later, e) refl

trim-IsSolid : (s : List ℕ) → IsSolid (trim s)
unfolding trim
trim-IsSolid s = trim_end-IsSolid (trim_start s) (trim_start-IsSolid s)

trim-trim : (s : List ℕ) → trim (trim s) ≡ trim s
unfolding trim
trim-trim s =
    ap trim_end (trim_start_solid (trim s) (trim-IsSolid s)) ∙ trim_end-trim_end (trim_start s)

after_bearer_solid :
    (t : List ℕ)
    → IsSolid t
    → t ≢ []
    → any is_line_end t ≡ false
    → after_bearer 1 false t ≡ some (trim t)
unfolding after_bearer
after_bearer_solid [] h n l = absurd (n refl)
after_bearer_solid (c ∷ t) h n l = rw (h, l) refl

-- A token that a client sends is the one that is compared.
bearer_token :
    (t : List ℕ)
    → IsSolid t
    → t ≢ []
    → any is_line_end t ≡ false
    → bearer (codes "Bearer " ++ t) ≡ some (trim t)
unfolding bearer bearer_rest strip_i after_bearer
bearer_token t h n l = after_bearer_solid t h n l

-- The headers of a client that holds the token.
abbrev pub bearing : List ℕ → Option (List ℕ) → Headers
bearing t x = record { authorization = some (codes "Bearer " ++ t); x_sk_auth = x }

-- The file's token is what the session route hands out.
session_token :
    (path : String) (files : Files) (t : List ℕ)
    → get_session path files ≡ token t
    → (from_file (files path) ≡ some t) × IsSolid t × (t ≢ []) × (trim t ≡ t)
unfolding get_session session_of
session_token path files t = by_file (files path)
  where
    by_text :
        (raw : List ℕ)
        → (if is_nil raw
            then unavailable 503 "auth not initialized: empty token file"
            else token raw)
          ≡ token t
        → (filled raw ≡ some t) × (t ≢ []) × (raw ≡ t)
    by_text [] e = cc e
    by_text (c ∷ raw) e = let same : c ∷ raw ≡ t = cc in (ap (λ x. some x) same, λ n. cc, same)

    by_file :
        (o : Option (List ℕ))
        → session_of o ≡ token t
        → (from_file o ≡ some t) × IsSolid t × (t ≢ []) × (trim t ≡ t)
    by_file none e = cc e
    by_file (some raw) e =
        let (f, n, same) = by_text (trim raw) e in
        (f, subst IsSolid same (trim-IsSolid raw), n, subst (λ x. trim x ≡ x) same (trim-trim raw))

compared_same_iff : (u t : List ℕ) → (compared (some u) (some t) ≡ passed) ↔ (u ≡ t)
unfolding compared same_token
compared_same_iff u t =
    (by_test (codes_eq t u) (codes_eq_sound t u), λ e. rw e (rw (codes_eq_refl t) refl))
  where
    by_test :
        (b : Bool)
        → (b ≡ true → t ≡ u)
        → (if b then passed else refused 401 "unauthorized") ≡ passed
        → u ≡ t
    by_test true same k = sym (same refl)
    by_test false same k = cc k

-- A client that sends back the token of the session route passes exactly if no token is cached for
-- the path, or this very one: after the file was written anew under the same path, it is refused
-- until the process is restarted. The token holds no line end.
pub require_token-get_session_iff :
    (path : String) (files : Files) (c : Cache) (t : List ℕ) (x : Option (List ℕ))
    → get_session path files ≡ token t
    → any is_line_end t ≡ false
    → ((require_token path files (bearing t x) c).1 ≡ passed)
      ↔ ((cached c path ≡ none) ⊎ (cached c path ≡ some t))
unfolding require_token load_token loaded kept extract_token with_authorization or_x
require_token-get_session_iff path files c t x s l =
    let (f, d, n, same) = session_token path files t s in
    let b = bearer_token t d n l in rw (b, same) (by_cached (cached c path) f)
  where
    is_token : {u : List ℕ} → (some u ≡ none) ⊎ (some u ≡ some t) → u ≡ t
    is_token (inl e) = cc e
    is_token (inr e) = cc

    by_cached :
        (o : Option (List ℕ))
        → from_file (files path) ≡ some t
        → (compared (loaded c path files o).1 (some t) ≡ passed) ↔ ((o ≡ none) ⊎ (o ≡ some t))
    by_cached none f = (λ h. inl refl, λ h. rw f ((compared_same_iff t t).1 refl))
    by_cached (some u) f = (
      λ h. inr (ap (λ y. some y) ((compared_same_iff u t).0 h)),
      λ h. (compared_same_iff u t).1 (is_token h),
    )
