-- ===== src/Radix.antt =====
-- `charsetBaseConvert` of src/utility.cpp: a hexadecimal text in another base.
pub mod Pack
pub mod Divide
pub mod Convert
use knish_io_client_cpp.Base.{
  ℕ, zero, suc, ◌+◌, ◌-◌, ◌*◌, ◌/◌, ◌%◌, ◌^◌, ◌≡◌, refl, Bool, true, false, not, ◌&&◌, ◌||◌, List,
  [], ◌∷◌, ◌++◌, reverse, arith, ltb, leb, ◌==◌, if◌then◌else◌, length, is_empty, get_or, all, Text,
  codes, Result, ok, err, ◌>>=◌, ◌>>◌, invalid_argument, runtime_error, logic_error, require,
  rethrow_as, bit_or, Option, none, some,
}
use knish_io_client_cpp.Codec.Hex.{is_hex_digit, nibble}

-- `find_first_not_of('0')`, and what stands from there.
unfoldable pub skip_zeros : Text → Text
skip_zeros [] = []
skip_zeros (c ∷ s) = let rest = skip_zeros s in if c == b'0' then rest else c ∷ s

-- `limb = (limb << 4) | nibble`
abbrev pub push_nibble : ℕ → ℕ → ℕ
push_nibble limb d = bit_or (limb * 2 ^ 4 % 2 ^ 32) d

-- Big-endian limbs; the first takes `head` digits and every other one 8.
unfoldable pub pack_digits : Text → ℕ → ℕ → ℕ → List ℕ
unfolding nibble
pack_digits [] limb in_limb head = []
pack_digits (c ∷ s) limb in_limb head =
    let limb' = push_nibble limb (nibble c) in
    let full = pack_digits s 0 0 8 in
    let more = pack_digits s limb' (in_limb + 1) head in
    if in_limb + 1 == head then limb' ∷ full else more

unfoldable pub head_digits : ℕ → ℕ
head_digits digits = if digits % 8 == 0 then 8 else digits % 8

-- One long division: the quotient with no zero limb in front, and the remainder.
unfoldable pub divide_limbs : ℕ → List ℕ → ℕ → List ℕ → List ℕ × ℕ
divide_limbs base [] rem quotient = (quotient, rem)
divide_limbs base (l ∷ limbs) rem quotient =
    let cur = bit_or (rem * 2 ^ 32 % 2 ^ 64) l in
    let q = cur / base % 2 ^ 32 in
    divide_limbs base limbs (cur % base)
      (if not (is_empty quotient) || not (q == 0) then quotient ++ (q ∷ []) else quotient)

-- `while (!limbs.empty())` on fuel; `none` means that the fuel ran out.
unfoldable pub convert_loop : ℕ → ℕ → Text → List ℕ → Text → Option Text
unfolding divide_limbs
convert_loop fuel base table [] res = some res
convert_loop zero base table (l ∷ limbs) res = none
convert_loop (suc fuel) base table (l ∷ limbs) res =
    let (quotient, rem) = divide_limbs base (l ∷ limbs) 0 [] in
    convert_loop fuel base table quotient (res ++ (get_or table rem 0 ∷ []))

-- `strlen`
unfoldable pub strlen : Text → ℕ
strlen [] = 0
strlen (c ∷ s) = let rest = strlen s in if c == 0 then 0 else suc rest

-- The conversion itself. A digit leaves at least one bit, so four rounds for each digit are enough;
-- without fuel the result would be `logic_error`, which no round ever gives.
unfoldable pub convert_digits : Text → ℕ → Text → Result Text
convert_digits [] base table = ok (get_or table 0 0 ∷ [])
convert_digits (c ∷ s) base table =
    let digits = length (c ∷ s) in
    elim (convert_loop (4 * digits) base table (pack_digits (c ∷ s) 0 0 (head_digits digits)) []) [
      | none ↦ err logic_error
      | some res ↦ ok (reverse res)
    ]

-- A null table is `none`.
unfoldable pub charset_base_convert : Text → ℕ → ℕ → Option Text → Result Text
charset_base_convert hash_hex base_from base_to none =
    if is_empty hash_hex then ok [] else err invalid_argument
charset_base_convert hash_hex base_from base_to (some table) =
    if is_empty hash_hex then ok [] else do
      require (not (base_to == 0 || ltb 256 base_to)) invalid_argument
      require (not (base_to == 1)) invalid_argument
      require (base_from == 16) invalid_argument
      require (not (ltb (strlen table) base_to)) invalid_argument
      require (all is_hex_digit hash_hex) invalid_argument
      rethrow_as runtime_error (convert_digits (skip_zeros hash_hex) base_to table)
