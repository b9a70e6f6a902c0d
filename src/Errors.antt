-- ===== src/Errors.antt =====
-- src/errors.ts: sorting an error message into a kind the operator can act on. A message is its
-- code points; a pattern is tried anywhere in it.
mod Examples
use signalk_doctor_server.Common.{
  ℕ, Bool, true, false, ◌&&◌, ◌||◌, not, List, [], ◌∷◌, String, if◌then◌else◌, any, map,
}
use signalk_doctor_server.Common.Text.{
  codes, lower, is_digit, is_word, starts, contains, contains_i,
}

pub data ErrorKind : Type 0 where
  network registry_unavailable auth disk permission not_found unknown : ErrorKind

pub record CategorizedError : Type 0 where
  pub kind : ErrorKind
  pub user_message : String
  pub raw : String

-- `/HTTP 5\d\d/`
http_5xx_here : List ℕ → Bool
http_5xx_here (a ∷ b ∷ c ∷ d ∷ e ∷ f ∷ g ∷ h ∷ rest) =
    starts (codes "HTTP 5") (a ∷ b ∷ c ∷ d ∷ e ∷ f ∷ []) && is_digit g && is_digit h
http_5xx_here _ = false

http_5xx : List ℕ → Bool
unfolding http_5xx_here
http_5xx [] = false
http_5xx (c ∷ text) = http_5xx_here (c ∷ text) || http_5xx text

-- `\b` after a word: the text ends or goes on with no word character.
ends_word : List ℕ → Bool
ends_word [] = true
ends_word (c ∷ text) = not (is_word c)

skip : List ℕ → List ℕ → List ℕ
skip [] text = text
skip (p ∷ ps) [] = []
skip (p ∷ ps) (c ∷ text) = skip ps text

-- `/\bword\b/`, for a pattern that begins and ends with word characters; `before` says whether the
-- character before the text is a word character.
contains_word : List ℕ → Bool → List ℕ → Bool
unfolding starts skip ends_word
contains_word pattern before [] = false
contains_word pattern before (c ∷ text) =
    (not before && starts pattern (c ∷ text) && ends_word (skip pattern (c ∷ text)))
    || contains_word pattern (is_word c) text

net_patterns : List ℕ → Bool
unfolding contains contains_i
net_patterns m =
    any (λ p. contains (codes p) m)
      ("ENOTFOUND" ∷ "ECONNREFUSED" ∷ "EHOSTUNREACH" ∷ "ETIMEDOUT" ∷ "ECONNRESET" ∷ "EAI_AGAIN"
        ∷ "UND_ERR" ∷ [])
    || any (λ p. contains_i (codes p) m) ("no route to host" ∷ "network is unreachable" ∷ [])

registry_unavailable_patterns : List ℕ → Bool
unfolding http_5xx contains contains_i contains_word
registry_unavailable_patterns m =
    http_5xx m
    || contains (codes "HTTP 429") m
    || contains_word (codes "fetch failed") false (map lower m)
    || any (λ p. contains_i (codes p) m) ("503 Service Unavailable" ∷ "502 Bad Gateway" ∷ [])

auth_patterns : List ℕ → Bool
unfolding contains_i
auth_patterns m =
    any (λ p. contains_i (codes p) m)
      ("unauthorized" ∷ "authentication required" ∷ "denied: requested access" ∷ [])

disk_patterns : List ℕ → Bool
unfolding contains_i
disk_patterns m = any (λ p. contains_i (codes p) m) ("no space left" ∷ "enospc" ∷ "disk quota" ∷ [])

perm_patterns : List ℕ → Bool
unfolding contains_i
perm_patterns m =
    any (λ p. contains_i (codes p) m)
      ("permission denied" ∷ "eacces" ∷ "eperm" ∷ "operation not permitted" ∷ [])

not_found_patterns : List ℕ → Bool
unfolding contains_i
not_found_patterns m =
    any (λ p. contains_i (codes p) m)
      ("no such image" ∷ "no such container" ∷ "enoent" ∷ "not found" ∷ [])

unfoldable pub categorize_error : String → CategorizedError
unfolding net_patterns registry_unavailable_patterns auth_patterns disk_patterns perm_patterns
    not_found_patterns
categorize_error raw =
    if net_patterns (codes raw)
    then categorized network "Could not reach the registry. Check connectivity and try again."
    else if auth_patterns (codes raw)
    then categorized auth "Registry authentication failed."
    else if registry_unavailable_patterns (codes raw)
    then categorized registry_unavailable
        "The registry is temporarily unavailable. Try again in a moment."
    else if disk_patterns (codes raw)
    then categorized disk "Disk full. Free space and retry."
    else if perm_patterns (codes raw)
    then categorized permission "Permission denied. Check container socket and mount permissions."
    else if not_found_patterns (codes raw)
    then categorized not_found "Resource not found."
    else categorized unknown "Unexpected error. See logs for details."
  where
    categorized : ErrorKind → String → CategorizedError
    categorized kind message = record { kind = kind; user_message = message; raw = raw }
