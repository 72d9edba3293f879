-- ===== src/Codec/Base64.antt =====
-- `toBase64`, `fromBase64`, `hexToBase64` and `base64ToHex` of src/utility.cpp, and `isStrictBase64`
-- of src/Molecule.cpp.
pub mod RoundTrip
pub mod Strict
use knish_io_client_cpp.Base.{
  ℕ, zero, suc, ◌+◌, ◌-◌, ◌*◌, ◌/◌, ◌%◌, ◌^◌, ◌≤◌, ◌<◌, ◌≡◌, refl, ap, ◌∙◌, Bool, true, false, not,
  ◌&&◌, ◌||◌, List, [], ◌∷◌, ◌++◌, map, arith, ltb, leb, ◌==◌, if◌then◌else◌, length, All, Text,
  IsByte, Result, ok, err, ◌>>=◌, Option, none, some, get_or, codes, bit_or, is_empty,
}
use mathlib.Core.List.{foldl}
use knish_io_client_cpp.Codec.Hex.{to_hex_string, from_hex_string}

abbrev pub chars : Text
chars = codes "ABCDEFGHIJKLMNOPQRSTUVWXYZabcdefghijklmnopqrstuvwxyz0123456789+/"

-- `chars[i]`
unfoldable pub symbol : ℕ → ℕ
symbol i = get_or chars i 0

-- `(value << 8) | byte` on a uint32_t.
abbrev pack_byte : ℕ → ℕ → ℕ
pack_byte value byte = bit_or (value * 2 ^ 8 % 2 ^ 32) byte

-- One round of the outer loop: four characters for up to three bytes.
unfoldable pub encode_group : List ℕ → Text
unfolding symbol
encode_group group =
    let count = length group in
    let value = foldl pack_byte 0 group * 2 ^ ((3 - count) * 8) % 2 ^ 32 in
    map (λ j. if leb j count then symbol (value / 2 ^ (18 - j * 6) % 0x40) else b'=')
      (0 ∷ 1 ∷ 2 ∷ 3 ∷ [])

unfoldable pub to_base64 : List ℕ → Text
unfolding encode_group
to_base64 [] = []
to_base64 (a ∷ []) = encode_group (a ∷ [])
to_base64 (a ∷ b ∷ []) = encode_group (a ∷ b ∷ [])
to_base64 (a ∷ b ∷ c ∷ data') = encode_group (a ∷ b ∷ c ∷ []) ++ to_base64 data'

-- `table[c]`, where `none` stands for -1.
pub index_from : ℕ → Text → ℕ → Option ℕ
index_from i [] c = none
index_from i (x ∷ xs) c = if x == c then some i else index_from (i + 1) xs c

pub table : ℕ → Option ℕ
unfolding index_from
table = index_from 0 chars

-- The inner loop: `value` and `count` after the characters of a group; '=' and strangers are skipped.
unfoldable pub decode_step : ℕ × ℕ → ℕ → ℕ × ℕ
unfolding table
decode_step (value, count) c = if c == b'=' then (value, count) else elim (table c) [
  | none ↦ (value, count)
  | some index ↦ (bit_or (value * 2 ^ 6 % 2 ^ 32) index, count + 1)
]

-- The bytes that a round pushes.
pub unpack : ℕ × ℕ → List ℕ
unpack (value, count) =
    let shifted = value * 2 ^ ((4 - count) * 6) % 2 ^ 32 in
    let byte = λ (j : ℕ). shifted / 2 ^ (16 - j * 8) % 256 in
    if leb count 1
    then []
    else if leb count 2
    then byte 0 ∷ []
    else if leb count 3
    then byte 0 ∷ byte 1 ∷ []
    else byte 0 ∷ byte 1 ∷ byte 2 ∷ []

unfoldable pub decode_group : Text → List ℕ
unfolding decode_step unpack
decode_group group = unpack (foldl decode_step (0, 0) group)

unfoldable pub from_base64 : Text → List ℕ
unfolding decode_group
from_base64 [] = []
from_base64 (a ∷ []) = decode_group (a ∷ [])
from_base64 (a ∷ b ∷ []) = decode_group (a ∷ b ∷ [])
from_base64 (a ∷ b ∷ c ∷ []) = decode_group (a ∷ b ∷ c ∷ [])
from_base64 (a ∷ b ∷ c ∷ d ∷ str) = decode_group (a ∷ b ∷ c ∷ d ∷ []) ++ from_base64 str

unfoldable pub hex_to_base64 : Text → Result Text
hex_to_base64 hex = from_hex_string hex >>= λ bytes. ok (to_base64 bytes)

unfoldable pub base64_to_hex : Text → Text
base64_to_hex b64 = to_hex_string (from_base64 b64)

pub is_base64_char : ℕ → Bool
is_base64_char c =
    leb b'A' c && leb c b'Z'
    || leb b'a' c && leb c b'z'
    || leb b'0' c && leb c b'9'
    || c == b'+'
    || c == b'/'

-- The loop, with the number of '=' so far.
pub strict_loop : ℕ → Text → Bool
unfolding is_base64_char
strict_loop padding [] = leb padding 2
strict_loop padding (c ∷ s) =
    let padded = strict_loop (padding + 1) s in
    let rest = strict_loop padding s in
    if c == b'='
    then padded
    else if ltb 0 padding
    then false
    else if not (is_base64_char c)
    then false
    else rest

unfoldable pub is_strict_base64 : Text → Bool
unfolding strict_loop
is_strict_base64 s = if is_empty s || not (length s % 4 == 0) then false else strict_loop 0 s
