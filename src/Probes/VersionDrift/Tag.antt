-- ===== src/Probes/VersionDrift/Tag.antt =====
-- The tag of an image name.
use text.Mathlib.TextLemmas.{nil-append, cons-append, append-nil}
use signalk_doctor_server.Common.{
  ◌≡◌, refl, sym, ap, ◌∙◌, true, false, Option, none, some, String, arith, ◌^^◌,
}
use signalk_doctor_server.Common.Strings.{has_char, one-append, has_char-append}
use signalk_doctor_server.Probes.VersionDrift.{no_digest, after_colon, tag_of}

no_digest-append : (s t : String) → has_char b'@' s ≡ false → no_digest (s ^^ t) ≡ s ^^ no_digest t
unfolding no_digest has_char
no_digest-append String.[] t h = ap no_digest (nil-append t) ∙ sym (nil-append (no_digest t))
no_digest-append (String.◌∷◌ c s) t h =
    ap no_digest (cons-append c s t)
    ∙ ground (no_digest-append s t (ground (h, arith)), h, cons-append c s (no_digest t), arith)

after_colon-none : (s : String) → has_char b':' s ≡ false → after_colon s ≡ none
unfolding after_colon has_char
after_colon-none String.[] h = refl
after_colon-none (String.◌∷◌ c s) h =
    rw (after_colon-none s (ground (h, arith))) (ground (h, arith))

after_colon-append : (s t tag : String) → after_colon t ≡ some tag → after_colon (s ^^ t) ≡ some tag
unfolding after_colon
after_colon-append String.[] t tag h = ap after_colon (nil-append t) ∙ h
after_colon-append (String.◌∷◌ c s) t tag h =
    ap after_colon (cons-append c s t) ∙ rw (after_colon-append s t tag h, after_colon) refl

after_colon_slash :
    (s t : String) → has_char b'/' t ≡ true → has_char b':' t ≡ false → after_colon (s ^^ t) ≡ none
unfolding after_colon
after_colon_slash String.[] t h k = ap after_colon (nil-append t) ∙ after_colon-none t k
after_colon_slash (String.◌∷◌ c s) t h k =
    ap after_colon (cons-append c s t)
    ∙ rw (after_colon_slash s t h k, after_colon)
        (ground (has_char-append b'/' s t, has_char-append b':' s t, h, k, arith))

-- A digest, where one follows.
abbrev pub digest_of : Option String → String
digest_of none = ""
digest_of (some d) = "@" ^^ d

after_digest :
    (s : String) (d : Option String) → has_char b'@' s ≡ false → no_digest (s ^^ digest_of d) ≡ s
unfolding no_digest
after_digest s none h = no_digest-append s "" h ∙ append-nil s
after_digest s (some d) h =
    no_digest-append s ("@" ^^ d) h ∙ ap (λ t. s ^^ no_digest t) (one-append "@" d) ∙ append-nil s

after_colon_tag :
    (tag : String)
    → has_char b':' tag ≡ false
    → has_char b'/' tag ≡ false
    → after_colon (":" ^^ tag) ≡ some tag
unfolding after_colon
after_colon_tag tag h k =
    ap after_colon (one-append ":" tag) ∙ rw (after_colon-none tag h) (ground (h, k, arith))

-- The tag of an image is read back, whatever registry host and port stand before it and whatever
-- digest follows; an image that has none, be it behind a host with a port, has none.
pub tag_of-image :
    (repo tag name : String) (digest : Option String)
    → has_char b'@' repo ≡ false
    → (has_char b'@' tag ≡ false) × (has_char b':' tag ≡ false) × (has_char b'/' tag ≡ false)
    → (has_char b'@' name ≡ false) × (has_char b':' name ≡ false)
    → (tag_of (some ((repo ^^ ":" ^^ tag) ^^ digest_of digest)) ≡ some tag)
      × (tag_of (some ((repo ^^ "/" ^^ name) ^^ digest_of digest)) ≡ none)
unfolding tag_of has_char
tag_of-image repo tag name digest r (t, u, v) (n, m) = (
  ap after_colon (
        after_digest (repo ^^ ":" ^^ tag) digest
          (has_char-append b'@' repo (":" ^^ tag) ∙ rw (r, one-append) t))
      ∙ after_colon-append repo (":" ^^ tag) tag (after_colon_tag tag u v),
  ap after_colon (
        after_digest (repo ^^ "/" ^^ name) digest
          (has_char-append b'@' repo ("/" ^^ name) ∙ rw (r, one-append) n))
      ∙ after_colon_slash repo ("/" ^^ name) (rw one-append refl) (rw one-append m),
)
