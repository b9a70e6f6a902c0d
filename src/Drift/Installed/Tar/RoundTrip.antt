-- ===== src/Drift/Installed/Tar/RoundTrip.antt =====
-- What a writer of archives puts in comes out again.
use native.Mathlib.Nat.{pow-suc}
use mathlib.Core.List.{append_assoc}
use signalk_doctor_server.Common.{
  ℕ, zero, suc, ◌+◌, ◌-◌, ◌*◌, ◌/◌, ◌%◌, ◌^◌, ◌≤◌, ◌<◌, ◌≡◌, refl, ap, ◌∙◌, Bool, true, false,
  Option, none, some, List, [], ◌∷◌, ◌++◌, arith, if◌then◌else◌, ltb, length, take, drop, All,
  All-append, length-append, map-append, ltb→lt,
}
use signalk_doctor_server.Common.Text.{trim, trim_start, trim_end}
use signalk_doctor_server.Drift.Installed.Tar.{
  subarray, ascii, strip_padding, octal_digits, unsigned, parse_octal, size_of, payload,
  first_tar_entry,
}

-- The size as an archive holds it: octal digits, the highest first, filled up with zeros.
abbrev pub octal : ℕ → ℕ → List ℕ
octal zero n = []
octal (suc k) n = octal k (n / 8) ++ (48 + n % 8) ∷ []

abbrev IsOctal : ℕ → Type 0
IsOctal c = (48 ≤ c) × (c ≤ 55)

octal-All : (k n : ℕ) → All IsOctal (octal k n)
octal-All zero n = tt
octal-All (suc k) n =
    All-append IsOctal (octal k (n / 8)) ((48 + n % 8) ∷ []) (octal-All k (n / 8))
      ((omega arith, omega arith), tt)

length-octal : (k n : ℕ) → length (octal k n) ≡ k
length-octal zero n = refl
length-octal (suc k) n =
    omega (arith, length-octal k (n / 8), length-append (octal k (n / 8)) ((48 + n % 8) ∷ []))

octal_digits-append :
    (acc d : ℕ) (xs : List ℕ)
    → All IsOctal xs
    → IsOctal d
    → octal_digits acc (xs ++ d ∷ []) ≡ octal_digits acc xs * 8 + (d - 48)
unfolding octal_digits
octal_digits-append acc d [] h k = ground arith
octal_digits-append acc d (c ∷ xs) (h, hs) k =
    ground (octal_digits-append (acc * 8 + (c - 48)) d xs hs k, h, arith)

-- The digits are read back.
octal_digits-octal : (k n : ℕ) → n < 8 ^ k → octal_digits 0 (octal k n) ≡ n
unfolding octal_digits
octal_digits-octal zero n h = omega arith
octal_digits-octal (suc k) n h =
    octal_digits-append 0 (48 + n % 8) (octal k (n / 8)) (octal-All k (n / 8))
      (omega arith, omega arith)
    ∙ omega (arith, octal_digits-octal k (n / 8) (omega (arith, pow-suc 8 k)))

ascii-octal : (xs : List ℕ) → All IsOctal xs → ascii xs ≡ xs
ascii-octal [] h = refl
ascii-octal (x ∷ xs) (h, hs) = ground (ascii-octal xs hs, h, arith)

strip_padding-octal : (xs : List ℕ) → All IsOctal xs → strip_padding (xs ++ 0 ∷ []) ≡ xs
unfolding strip_padding
strip_padding-octal [] h = refl
strip_padding-octal (x ∷ xs) (h, hs) = ground (strip_padding-octal xs hs, h, arith)

trim_end-octal : (xs : List ℕ) → All IsOctal xs → trim_end xs ≡ xs
unfolding trim_end
trim_end-octal [] h = refl
trim_end-octal (x ∷ xs) (h, hs) = ground (trim_end-octal xs hs, h, arith)

trim_start-octal : (xs : List ℕ) → All IsOctal xs → trim_start xs ≡ xs
unfolding trim_start
trim_start-octal [] h = refl
trim_start-octal (x ∷ xs) (h, hs) = ground (h, arith)

parse_octal-octal :
    (xs : List ℕ) → All IsOctal xs → 0 < length xs → parse_octal xs ≡ some (octal_digits 0 xs)
unfolding parse_octal unsigned
parse_octal-octal [] h p = absurd (omega arith)
parse_octal-octal (x ∷ xs) (h, hs) p = ground (h, arith)

module _ {ℓ} {A : Type ℓ} where
  drop_front : (k : ℕ) (xs ys : List A) → length xs ≡ k → drop k (xs ++ ys) ≡ ys
  drop_front zero [] ys e = refl
  drop_front (suc k) [] ys e = absurd (omega arith)
  drop_front zero (x ∷ xs) ys e = absurd (omega arith)
  drop_front (suc k) (x ∷ xs) ys e = drop_front k xs ys (omega arith)

  take_front : (k : ℕ) (xs ys : List A) → length xs ≡ k → take k (xs ++ ys) ≡ xs
  take_front zero [] ys e = refl
  take_front (suc k) [] ys e = absurd (omega arith)
  take_front zero (x ∷ xs) ys e = absurd (omega arith)
  take_front (suc k) (x ∷ xs) ys e = ap (λ l. x ∷ l) (take_front k xs ys (omega arith))

  subarray_middle :
      (from to : ℕ) (xs ys zs : List A)
      → length xs ≡ from
      → length xs + length ys ≡ to
      → take (to - from) (drop from (xs ++ (ys ++ zs))) ≡ ys
  subarray_middle from to xs ys zs e f =
      ap (take (to - from)) (drop_front from xs (ys ++ zs) e)
      ∙ take_front (to - from) ys zs (omega arith)

size_of-digits :
    (before ds after : List ℕ)
    → length before ≡ 124
    → length ds ≡ 11
    → All IsOctal ds
    → size_of (before ++ ((ds ++ 0 ∷ []) ++ after)) ≡ some (octal_digits 0 ds)
unfolding size_of trim
size_of-digits before ds after e f h =
    let field : take 12 (drop 124 (before ++ ((ds ++ 0 ∷ []) ++ after))) ≡ ds ++ 0 ∷ [] =
      subarray_middle 124 136 before (ds ++ 0 ∷ []) after e
        (omega (arith, e, f, length-append ds (0 ∷ []))) in
    let plain : ascii (ds ++ 0 ∷ []) ≡ ds ++ 0 ∷ [] =
      map-append (λ c. c % 128) ds (0 ∷ []) ∙ ap (λ l. l ++ 0 ∷ []) (ascii-octal ds h) in
    ap (λ l. parse_octal (trim_end (trim_start (strip_padding (ascii l))))) field
    ∙ ap (λ l. parse_octal (trim_end (trim_start (strip_padding l)))) plain
    ∙ ap (λ l. parse_octal (trim_end (trim_start l))) (strip_padding-octal ds h)
    ∙ ap (λ l. parse_octal (trim_end l)) (trim_start-octal ds h)
    ∙ ap parse_octal (trim_end-octal ds h)
    ∙ parse_octal-octal ds h (omega arith)

payload-middle :
    (header content rest : List ℕ)
    → length header ≡ 512
    → payload (header ++ (content ++ rest)) (some (length content)) ≡ some content
unfolding payload
payload-middle header content rest e = pick (ltb size (512 + length content)) refl
  where
    size : ℕ
    size = length (header ++ (content ++ rest))

    pick :
        (b : Bool)
        → ltb size (512 + length content) ≡ b
        → (if b
            then none
            else some (subarray 512 (512 + length content) (header ++ (content ++ rest))))
          ≡ some content
    pick true h = absurd (
        omega (
          arith,
          ltb→lt size (512 + length content) h,
          e,
          length-append header (content ++ rest),
          length-append content rest,
        ))
    pick false h =
        ap some (subarray_middle 512 (512 + length content) header content rest e (omega arith))

module _ (before ds after tail : List ℕ) where
  abbrev header : List ℕ
  header = before ++ ((ds ++ 0 ∷ []) ++ after)

  length-header : length before ≡ 124 → length ds ≡ 11 → length after ≡ 376 → length header ≡ 512
  length-header e f g = omega (
    arith,
    e,
    f,
    g,
    length-append before ((ds ++ 0 ∷ []) ++ after),
    length-append (ds ++ 0 ∷ []) after,
    length-append ds (0 ∷ []),
  )

  size_of-header :
      length before ≡ 124
      → length ds ≡ 11
      → All IsOctal ds
      → size_of (header ++ tail) ≡ some (octal_digits 0 ds)
  size_of-header e f h =
      ap size_of (
        append_assoc before ((ds ++ 0 ∷ []) ++ after) tail
        ∙ ap (λ l. before ++ l) (append_assoc (ds ++ 0 ∷ []) after tail))
      ∙ size_of-digits before ds (after ++ tail) e f h

  first_tar_entry-payload :
      (size : Option ℕ)
      → length header ≡ 512
      → size_of (header ++ tail) ≡ size
      → first_tar_entry (header ++ tail) ≡ payload (header ++ tail) size
  unfolding first_tar_entry
  first_tar_entry-payload size e s = pick (ltb (length (header ++ tail)) 512) refl
    where
      pick :
          (b : Bool)
          → ltb (length (header ++ tail)) 512 ≡ b
          → (if b then none else payload (header ++ tail) (size_of (header ++ tail)))
            ≡ payload (header ++ tail) size
      pick true h =
          absurd
            (omega (arith, ltb→lt (length (header ++ tail)) 512 h, e, length-append header tail))
      pick false h = ap (payload (header ++ tail)) s

-- The archive of one file: a header of 512 bytes with the size where tar has it, the bytes, and
-- whatever comes after.
abbrev pub archive : (before after content rest : List ℕ) → List ℕ
archive before after content rest =
    (before ++ ((octal 11 (length content) ++ 0 ∷ []) ++ after)) ++ (content ++ rest)

-- The first entry of an archive is exactly the file that was put in, whatever the other fields of
-- the header and the rest of the archive hold. The file has fewer than 8 ^ 11 bytes.
pub first_tar_entry-archive :
    (before after content rest : List ℕ)
    → length before ≡ 124
    → length after ≡ 376
    → length content < 8 ^ 11
    → first_tar_entry (archive before after content rest) ≡ some content
first_tar_entry-archive before after content rest e f h =
    let ds = octal 11 (length content) in
    let long = length-octal 11 (length content) in
    let full = length-header before ds after (content ++ rest) e long f in
    first_tar_entry-payload before ds after (content ++ rest) (some (length content)) full (
      size_of-header before ds after (content ++ rest) e long (octal-All 11 (length content))
      ∙ ap some (octal_digits-octal 11 (length content) h))
    ∙ payload-middle (header before ds after (content ++ rest)) content rest full
