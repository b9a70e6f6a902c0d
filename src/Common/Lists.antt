-- ===== src/Common/Lists.antt =====
-- Lists measured by native numbers, under the library's names, and predicates over them.
use Prim.Native.Nat.{ℕ, zero, suc, ◌+◌, ◌-◌, ◌≤◌, min}
use mathlib.Core.Path.{◌≡◌, refl, sym, ap, ◌∙◌, subst}
use mathlib.Core.Logic.{◌⊎◌, inl, inr}
use mathlib.Core.Bool.{Bool, true, false, ◌&&◌, ◌||◌}
use mathlib.Core.List.{List, [], ◌∷◌, ◌++◌, map}
use mathlib.Core.Option.{Option, none, some}
use native.Mathlib.Omega.{arith}

module _ {ℓ} {A : Type ℓ} where
  abbrev pub length : List A → ℕ
  length [] = 0
  length (x ∷ xs) = suc (length xs)

  abbrev pub take : ℕ → List A → List A
  take zero xs = []
  take (suc n) [] = []
  take (suc n) (x ∷ xs) = x ∷ take n xs

  abbrev pub drop : ℕ → List A → List A
  drop zero xs = xs
  drop (suc n) [] = []
  drop (suc n) (x ∷ xs) = drop n xs

  -- `xs.slice(-n)` for a positive n: the last n elements.
  abbrev pub take_last : ℕ → List A → List A
  take_last n xs = drop (length xs - n) xs

  abbrev pub any : (A → Bool) → List A → Bool
  any p [] = false
  any p (x ∷ xs) = p x || any p xs

  abbrev pub all : (A → Bool) → List A → Bool
  all p [] = true
  all p (x ∷ xs) = p x && all p xs

  abbrev pub find : (A → Bool) → List A → Option A
  find p [] = none
  find p (x ∷ xs) = elim (p x) [ true ↦ some x | false ↦ find p xs ]

  abbrev pub filter : (A → Bool) → List A → List A
  filter p [] = []
  filter p (x ∷ xs) = let rest = filter p xs in elim (p x) [ true ↦ x ∷ rest | false ↦ rest ]

  pub length-append : (xs ys : List A) → length (xs ++ ys) ≡ length xs + length ys
  length-append [] ys = omega arith
  length-append (x ∷ xs) ys = omega (arith, length-append xs ys)

  pub length-drop : (n : ℕ) (xs : List A) → length (drop n xs) ≡ length xs - n
  length-drop zero xs = omega arith
  length-drop (suc n) [] = omega arith
  length-drop (suc n) (x ∷ xs) = omega (arith, length-drop n xs)

  pub length-take : (n : ℕ) (xs : List A) → length (take n xs) ≡ min n (length xs)
  length-take zero xs = omega arith
  length-take (suc n) [] = omega arith
  length-take (suc n) (x ∷ xs) = omega (arith, length-take n xs)

pub drop-nil {ℓ} : {A : Type ℓ} (n : ℕ) → drop {A = A} n [] ≡ []
drop-nil zero = refl
drop-nil (suc n) = refl

pub drop_at {ℓ} : {A : Type ℓ} (m n : ℕ) (xs : List A) → m ≡ n → drop m xs ≡ drop n xs
drop_at m n xs e = ap (λ k. drop k xs) e

pub drop-drop {ℓ} : {A : Type ℓ} (a b : ℕ) (xs : List A) → drop a (drop b xs) ≡ drop (b + a) xs
drop-drop a zero xs = drop_at a (0 + a) xs (omega arith)
drop-drop a (suc b) [] = drop-nil a ∙ sym (drop-nil (suc b + a))
drop-drop a (suc b) (x ∷ xs) =
    drop-drop a b xs ∙ drop_at (suc (b + a)) (suc b + a) (x ∷ xs) (omega arith)

pub drop-append {ℓ} :
    {A : Type ℓ} (k : ℕ) (xs ys : List A) → k ≤ length xs → drop k (xs ++ ys) ≡ drop k xs ++ ys
drop-append zero xs ys h = refl
drop-append (suc k) [] ys h = absurd (omega arith)
drop-append (suc k) (x ∷ xs) ys h = drop-append k xs ys (omega arith)

pub drop-append_past {ℓ} :
    {A : Type ℓ} (k : ℕ) (xs ys : List A)
    → length xs ≤ k
    → drop k (xs ++ ys) ≡ drop (k - length xs) ys
drop-append_past k [] ys h = drop_at k (k - 0) ys (omega arith)
drop-append_past zero (x ∷ xs) ys h = absurd (omega arith)
drop-append_past (suc k) (x ∷ xs) ys h =
    drop-append_past k xs ys (omega arith)
    ∙ drop_at (k - length xs) (suc k - suc (length xs)) ys (omega arith)

pub map-drop {ℓ κ} :
    {A : Type ℓ} {B : Type κ} (f : A → B) (n : ℕ) (xs : List A)
    → map f (drop n xs) ≡ drop n (map f xs)
map-drop f zero xs = refl
map-drop f (suc n) [] = refl
map-drop f (suc n) (x ∷ xs) = map-drop f n xs

pub length-map {ℓ κ} :
    {A : Type ℓ} {B : Type κ} (f : A → B) (xs : List A) → length (map f xs) ≡ length xs
length-map f [] = refl
length-map f (x ∷ xs) = ap suc (length-map f xs)

pub map-append {ℓ κ} :
    {A : Type ℓ} {B : Type κ} (f : A → B) (xs ys : List A) → map f (xs ++ ys) ≡ map f xs ++ map f ys
map-append f [] ys = refl
map-append f (x ∷ xs) ys = ap (λ l. f x ∷ l) (map-append f xs ys)

pub map-take_last {ℓ κ} :
    {A : Type ℓ} {B : Type κ} (f : A → B) (n : ℕ) (xs : List A)
    → map f (take_last n xs) ≡ take_last n (map f xs)
map-take_last f n xs =
    map-drop f (length xs - n) xs
    ∙ drop_at (length xs - n) (length (map f xs) - n) (map f xs) (omega (arith, length-map f xs))

-- Cutting to the last `n` early does not change the last `n`.
pub take_last-append {ℓ} :
    {A : Type ℓ} (n : ℕ) (xs ys : List A)
    → take_last n (take_last n xs ++ ys) ≡ take_last n (xs ++ ys)
take_last-append n xs ys =
    let cut = length xs - n in
    let kept = length-drop cut xs in
    let joined : take_last n xs ++ ys ≡ drop cut (xs ++ ys) =
      sym (drop-append cut xs ys (omega arith)) in
    ap (take_last n) joined
    ∙ drop-drop (length (drop cut (xs ++ ys)) - n) cut (xs ++ ys)
    ∙ drop_at (cut + (length (drop cut (xs ++ ys)) - n)) (length (xs ++ ys) - n) (xs ++ ys)
        (omega (arith, length-drop cut (xs ++ ys), length-append xs ys))

-- A predicate by recursion computes to tuples, which the tactics read and build.
module _ {ℓ κ} {A : Type ℓ} (P : A → Type κ) where
  abbrev pub All : List A → Type κ
  All [] = Unit
  All (x ∷ xs) = P x × All xs

  pub All-append : (xs ys : List A) → All xs → All ys → All (xs ++ ys)
  All-append [] ys hx hy = hy
  All-append (x ∷ xs) ys hx hy = (hx.0, All-append xs ys hx.1 hy)

pub All-map {ℓ κ μ} :
    {A : Type ℓ} (P : A → Type κ) (Q : A → Type μ) (xs : List A)
    → ((a : A) → P a → Q a)
    → All P xs
    → All Q xs
All-map P Q [] f h = tt
All-map P Q (x ∷ xs) f (h, hs) = (f x h, All-map P Q xs f hs)

-- No element, at any level.
pub data Empty {ℓ} : Type ℓ where

-- Membership with its position kept.
module _ {ℓ} {A : Type ℓ} where
  abbrev pub In : A → List A → Type ℓ
  In a [] = Empty
  In a (x ∷ xs) = (a ≡ x) ⊎ In a xs

  pub All-In {κ} : (P : A → Type κ) {a : A} (xs : List A) → All P xs → In a xs → P a
  All-In P [] h m = elim m [ ]
  All-In P (x ∷ xs) h (inl e) = subst P (sym e) h.0
  All-In P (x ∷ xs) h (inr m) = All-In P xs h.1 m
