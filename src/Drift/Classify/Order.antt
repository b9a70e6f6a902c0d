-- ===== src/Drift/Classify/Order.antt =====
-- The classification against the order of versions.
use mathlib.Core.Path.{ap₂}
use signalk_doctor_server.Common.{
  ℕ, ◌≡◌, refl, ◌≢◌, ◌<◌, ◌⊎◌, inl, inr, ◌↔◌, true, false, Option, none, some, String, arith, subst,
  sym, ◌∙◌, Bool-cases,
}
use signalk_doctor_server.Drift.Types.{
  DriftClassification, up_to_date, patch, minor, major, prerelease, unknown,
}
use signalk_doctor_server.Drift.Classify.{
  Parsed, parse, classify, both, classify_parsed, same_prerelease,
}

-- Versions compared from the left, as the order of semantic versions has it, and what the
-- difference is called. The latest version `b` is ahead by its first differing component, or it
-- differs in the prerelease only, or it is not ahead of the installed `a`.
pub data Gap (a b : Parsed) : DriftClassification → Type 0 where
  by_major : a.major_part < b.major_part → Gap a b major
  by_minor : a.major_part ≡ b.major_part → a.minor_part < b.minor_part → Gap a b minor
  by_patch :
      a.major_part ≡ b.major_part
      → a.minor_part ≡ b.minor_part
      → a.patch_part < b.patch_part
      → Gap a b patch
  prerelease_only :
      a.major_part ≡ b.major_part
      → a.minor_part ≡ b.minor_part
      → a.patch_part ≡ b.patch_part
      → same_prerelease a.prerelease_part b.prerelease_part ≡ false
      → Gap a b prerelease
  level :
      a.major_part ≡ b.major_part
      → a.minor_part ≡ b.minor_part
      → a.patch_part ≡ b.patch_part
      → same_prerelease a.prerelease_part b.prerelease_part ≡ true
      → Gap a b up_to_date
  older_major : b.major_part < a.major_part → Gap a b up_to_date
  older_minor : a.major_part ≡ b.major_part → b.minor_part < a.minor_part → Gap a b up_to_date
  older_patch :
      a.major_part ≡ b.major_part
      → a.minor_part ≡ b.minor_part
      → b.patch_part < a.patch_part
      → Gap a b up_to_date

classify_parsed_complete :
    (a b : Parsed) (c : DriftClassification) → Gap a b c → classify_parsed a b ≡ c
unfolding classify_parsed
classify_parsed_complete a b c (by_major h) = ground arith
classify_parsed_complete a b c (by_minor e h) = ground arith
classify_parsed_complete a b c (by_patch e f h) = ground arith
classify_parsed_complete a b c (prerelease_only e f g h) = ground arith
classify_parsed_complete a b c (level e f g h) = ground arith
classify_parsed_complete a b c (older_major h) = ground arith
classify_parsed_complete a b c (older_minor e h) = ground arith
classify_parsed_complete a b c (older_patch e f h) = ground arith

from_Gap : (a b : Parsed) {c : DriftClassification} → Gap a b c → Gap a b (classify_parsed a b)
from_Gap a b {c} g = rw (classify_parsed_complete a b c g) g

trichotomy : (m n : ℕ) → (m < n) ⊎ ((m ≡ n) ⊎ (n < m))
trichotomy m n = ground arith

classify_parsed_sound : (a b : Parsed) → Gap a b (classify_parsed a b)
classify_parsed_sound a b = elim (trichotomy a.major_part b.major_part) [
  | inl h ↦ from_Gap a b (by_major h)
  | inr (inr h) ↦ from_Gap a b (older_major h)
  | inr (inl e) ↦ elim (trichotomy a.minor_part b.minor_part) [
    | inl h ↦ from_Gap a b (by_minor e h)
    | inr (inr h) ↦ from_Gap a b (older_minor e h)
    | inr (inl f) ↦ elim (trichotomy a.patch_part b.patch_part) [
      | inl h ↦ from_Gap a b (by_patch e f h)
      | inr (inr h) ↦ from_Gap a b (older_patch e f h)
      | inr (inl g) ↦ elim (Bool-cases (same_prerelease a.prerelease_part b.prerelease_part)) [
        | inl h ↦ from_Gap a b (level e f g h)
        | inr h ↦ from_Gap a b (prerelease_only e f g h)
      ]
    ]
  ]
]

-- For two versions that parse, the classification is the gap between them.
pub classify_iff-Gap :
    (installed latest : String) (a b : Parsed) (c : DriftClassification)
    → parse installed ≡ some a
    → parse latest ≡ some b
    → (classify installed latest ≡ c) ↔ Gap a b c
unfolding classify both
classify_iff-Gap installed latest a b c p q = (
  λ e. subst (Gap a b) (ap₂ both (sym p) (sym q) ∙ e) (classify_parsed_sound a b),
  λ g. ap₂ both p q ∙ classify_parsed_complete a b c g,
)

Gap-known : {a b : Parsed} → ¬ Gap a b unknown
Gap-known g = elim g [ ]

-- `unknown` says that one of the versions does not parse, and nothing else.
pub classify-unknown_iff :
    (installed latest : String)
    → (classify installed latest ≡ unknown) ↔ ((parse installed ≡ none) ⊎ (parse latest ≡ none))
unfolding classify both
classify-unknown_iff installed latest = both_unknown (parse installed) (parse latest)
  where
    known : (a b : Parsed) → classify_parsed a b ≢ unknown
    known a b e = Gap-known (subst (Gap a b) e (classify_parsed_sound a b))

    both_unknown : (p q : Option Parsed) → (both p q ≡ unknown) ↔ ((p ≡ none) ⊎ (q ≡ none))
    both_unknown none q = (λ _. inl refl, λ _. refl)
    both_unknown (some a) none = (λ _. inr refl, λ _. refl)
    both_unknown (some a) (some b) =
        (λ e. absurd (known a b e), λ h. elim h [ inl e ↦ cc | inr e ↦ cc ])
