-- ===== src/Drift/Installed/Tar.antt =====
-- src/drift/installed-packages.ts: the first entry of a tar archive, as a list of bytes.
pub mod RoundTrip
use signalk_doctor_server.Common.{
  ℕ, zero, suc, ◌+◌, ◌-◌, ◌*◌, ◌%◌, Bool, ◌&&◌, ◌||◌, Option, none, some, List, [], ◌∷◌,
  if◌then◌else◌, ◌==◌, ltb, leb, length, take, drop, map,
}
use signalk_doctor_server.Common.Text.{is_nil, trim}

-- `buf.subarray(from, to)`, cut off at the end of the buffer.
abbrev pub subarray : ℕ → ℕ → List ℕ → List ℕ
subarray from to buf = take (to - from) (drop from buf)

-- `toString('ascii')` clears the top bit of each byte.
abbrev ascii : List ℕ → List ℕ
ascii = map λ c. c % 128

-- `replace(/[\0 ]+$/, '')`
unfoldable pub strip_padding : List ℕ → List ℕ
strip_padding [] = []
strip_padding (c ∷ text) =
    let rest = strip_padding text in if (c == 0 || c == 32) && is_nil rest then [] else c ∷ rest

abbrev is_octal : ℕ → Bool
is_octal c = leb b'0' c && leb c b'7'

-- The octal digits up to the first other character.
unfoldable pub octal_digits : ℕ → List ℕ → ℕ
octal_digits acc [] = acc
octal_digits acc (c ∷ text) =
    let rest = octal_digits (acc * 8 + (c - b'0')) text in if is_octal c then rest else acc

unsigned : List ℕ → Option ℕ
unfolding octal_digits
unsigned [] = none
unsigned (c ∷ text) = if is_octal c then some (octal_digits 0 (c ∷ text)) else none

negated : Option ℕ → Option ℕ
negated none = none
negated (some zero) = some 0
negated (some (suc n)) = none

-- `parseInt(text, 8)` of a trimmed text, none where it is NaN or below 0.
unfoldable pub parse_octal : List ℕ → Option ℕ
unfolding unsigned negated
parse_octal [] = none
parse_octal (c ∷ text) =
    if c == b'-'
    then negated (unsigned text)
    else if c == b'+'
    then unsigned text
    else unsigned (c ∷ text)

size_of : List ℕ → Option ℕ
unfolding strip_padding parse_octal trim
size_of buf = parse_octal (trim (strip_padding (ascii (subarray 124 136 buf))))

payload : List ℕ → Option ℕ → Option (List ℕ)
payload buf none = none
payload buf (some size) =
    if ltb (length buf) (512 + size) then none else some (subarray 512 (512 + size) buf)

-- The bytes of the first file, none on any structural surprise.
unfoldable pub first_tar_entry : List ℕ → Option (List ℕ)
unfolding size_of payload
first_tar_entry buf = if ltb (length buf) 512 then none else payload buf (size_of buf)
