-- ===== src/Codec/Hex.antt =====
-- `toHexString` and `fromHexString` of src/utility.cpp.
use knish_io_client_cpp.Base.{
  ℕ, ◌+◌, ◌-◌, ◌*◌, ◌/◌, ◌%◌, ◌<◌, ◌≡◌, refl, Bool, true, ◌&&◌, ◌||◌, List, [], ◌∷◌, arith, ltb,
  leb, ◌==◌, if◌then◌else◌, length, All, Text, IsByte, Result, ok, invalid_argument, ◌>>=◌, ◌>>◌,
  require, ==_iff,
}

-- `std::isxdigit`
unfoldable pub is_hex_digit : ℕ → Bool
is_hex_digit c = leb b'0' c && leb c b'9' || leb b'a' c && leb c b'f' || leb b'A' c && leb c b'F'

-- The value of a hexadecimal digit, with the tests in the code's order.
unfoldable pub nibble : ℕ → ℕ
nibble c =
    if leb b'0' c && leb c b'9'
    then c - b'0'
    else if leb b'a' c && leb c b'f'
    then c - b'a' + 10
    else c - b'A' + 10

-- What `std::hex` prints for a number below 16.
unfoldable pub hex_digit : ℕ → ℕ
hex_digit n = if ltb n 10 then b'0' + n else b'a' + (n - 10)

-- `setw(2)` with fill '0' prints a byte as two digits.
unfoldable pub to_hex_string : List ℕ → Text
to_hex_string [] = []
to_hex_string (byte ∷ data') = hex_digit (byte / 16) ∷ hex_digit (byte % 16) ∷ to_hex_string data'

-- The loop over pairs; on two hexadecimal digits `strtoul` takes both and stays below 256.
from_hex_pairs : Text → Result (List ℕ)
unfolding is_hex_digit nibble
from_hex_pairs [] = ok []
from_hex_pairs (c ∷ []) = ok []
from_hex_pairs (c ∷ d ∷ str) =
    let rest = from_hex_pairs str in
    require (is_hex_digit c && is_hex_digit d) invalid_argument
    >> (rest >>= λ bytes. ok ((nibble c * 16 + nibble d) ∷ bytes))

unfoldable pub from_hex_string : Text → Result (List ℕ)
unfolding from_hex_pairs
from_hex_string str = require (length str % 2 == 0) invalid_argument >> from_hex_pairs str

-- The digits that the encoder writes.
abbrev pub IsHexDigit : ℕ → Type 0
IsHexDigit c = is_hex_digit c ≡ true

pub hex_digit-IsHexDigit : (n : ℕ) → n < 16 → IsHexDigit (hex_digit n)
unfolding is_hex_digit hex_digit
hex_digit-IsHexDigit n h = ground arith

pub nibble-hex_digit : (n : ℕ) → n < 16 → nibble (hex_digit n) ≡ n
unfolding nibble hex_digit
nibble-hex_digit n h = ground arith

pub nibble-lt : (c : ℕ) → IsHexDigit c → nibble c < 16
unfolding nibble is_hex_digit
nibble-lt c h = ground arith

pub hex_digit-IsByte : (n : ℕ) → n < 16 → IsByte (hex_digit n)
unfolding hex_digit
hex_digit-IsByte n h = ground arith

pub length-to_hex_string : (bs : List ℕ) → length (to_hex_string bs) ≡ 2 * length bs
unfolding to_hex_string
length-to_hex_string [] = omega arith
length-to_hex_string (b ∷ bs) = omega (arith, length-to_hex_string bs)

pub to_hex_string-All : (bs : List ℕ) → All IsByte bs → All IsHexDigit (to_hex_string bs)
unfolding to_hex_string
to_hex_string-All [] h = tt
to_hex_string-All (b ∷ bs) h = (
  hex_digit-IsHexDigit (b / 16) (omega arith),
  (hex_digit-IsHexDigit (b % 16) (omega arith), to_hex_string-All bs h.1),
)

-- The lower-case digits, which are the only ones that `hex_digit` writes.
unfoldable pub is_lower_hex : ℕ → Bool
is_lower_hex c = leb b'0' c && leb c b'9' || leb b'a' c && leb c b'f'

abbrev pub IsLowerHex : ℕ → Type 0
IsLowerHex c = is_lower_hex c ≡ true

pub hex_digit-IsLowerHex : (n : ℕ) → n < 16 → IsLowerHex (hex_digit n)
unfolding is_lower_hex hex_digit
hex_digit-IsLowerHex n h = ground arith

hex_digit-nibble : (c : ℕ) → IsLowerHex c → hex_digit (nibble c) ≡ c
unfolding is_lower_hex hex_digit nibble
hex_digit-nibble c h = ground arith

pub IsLowerHex→IsHexDigit : (c : ℕ) → IsLowerHex c → IsHexDigit c
unfolding is_lower_hex is_hex_digit
IsLowerHex→IsHexDigit c h = ground arith

pub to_hex_string-IsLowerHex : (bs : List ℕ) → All IsByte bs → All IsLowerHex (to_hex_string bs)
unfolding to_hex_string
to_hex_string-IsLowerHex [] h = tt
to_hex_string-IsLowerHex (b ∷ bs) h = (
  hex_digit-IsLowerHex (b / 16) (omega arith),
  (hex_digit-IsLowerHex (b % 16) (omega arith), to_hex_string-IsLowerHex bs h.1),
)

-- The bytes of a lower-case text of even length.
from_hex_pairs-lower :
    (s : Text)
    → All IsLowerHex s
    → length s % 2 ≡ 0
    → (bs : List ℕ) × (from_hex_pairs s ≡ ok bs) × All IsByte bs × (to_hex_string bs ≡ s)
unfolding from_hex_pairs to_hex_string
from_hex_pairs-lower [] h even = ([], refl, tt, refl)
from_hex_pairs-lower (c ∷ []) h even = absurd (omega arith)
from_hex_pairs-lower (c ∷ d ∷ s) h even =
    let (bs, e, bytes, back) = from_hex_pairs-lower s h.1.1 (omega arith) in
    let nc : nibble c < 16 = nibble-lt c (IsLowerHex→IsHexDigit c h.0) in
    let nd : nibble d < 16 = nibble-lt d (IsLowerHex→IsHexDigit d h.1.0) in
    (
      (nibble c * 16 + nibble d) ∷ bs,
      rw (IsLowerHex→IsHexDigit c h.0, IsLowerHex→IsHexDigit d h.1.0, e) refl,
      (omega arith, bytes),
      ground (arith, hex_digit-nibble c h.0, hex_digit-nibble d h.1.0),
    )

-- A lower-case text of even length is read without an exception, and writing its bytes gives it back.
pub from_hex_string-lower :
    (s : Text)
    → All IsLowerHex s
    → length s % 2 ≡ 0
    → (bs : List ℕ) × (from_hex_string s ≡ ok bs) × All IsByte bs × (to_hex_string bs ≡ s)
unfolding from_hex_string
from_hex_string-lower s h even =
    let (bs, e, bytes, back) = from_hex_pairs-lower s h even in
    (bs, rw ((==_iff _ _).1 even, e) refl, bytes, back)

from_hex_pairs-to_hex_string :
    (bs : List ℕ) → All IsByte bs → from_hex_pairs (to_hex_string bs) ≡ ok bs
unfolding from_hex_pairs to_hex_string
from_hex_pairs-to_hex_string [] h = refl
from_hex_pairs-to_hex_string (b ∷ bs) h = ground (
  arith,
  hex_digit-IsHexDigit (b / 16),
  hex_digit-IsHexDigit (b % 16),
  nibble-hex_digit (b / 16),
  nibble-hex_digit (b % 16),
  from_hex_pairs-to_hex_string bs,
)

-- `fromHexString` reads back every byte string that `toHexString` wrote.
pub from_hex_string-to_hex_string :
    (bs : List ℕ) → All IsByte bs → from_hex_string (to_hex_string bs) ≡ ok bs
unfolding from_hex_string
from_hex_string-to_hex_string bs h =
    ground (arith, length-to_hex_string bs, from_hex_pairs-to_hex_string bs h)
