-- ===== src/BigInt.antt =====
-- `CryptoBigInt` and `WalletCrypto` of src/crypto_bigint.cpp: unsigned numbers of any size as vectors
-- of 32-bit limbs, least significant first. Zeroization and timing are not modelled.
pub mod Parse
pub mod Sum
pub mod Print
pub mod HexAdd
use knish_io_client_cpp.Base.{
  ℕ, zero, suc, ◌+◌, ◌-◌, ◌*◌, ◌/◌, ◌%◌, ◌^◌, ◌≤◌, ◌<◌, ◌≡◌, refl, Bool, true, false, not, ◌&&◌,
  ◌||◌, List, [], ◌∷◌, ◌++◌, map, reverse, arith, ltb, leb, ◌==◌, if◌then◌else◌, length, is_empty,
  get_or, replicate, concat, all, Text, codes, Result, ok, err, ◌>>=◌, ◌>>◌, invalid_argument,
  runtime_error, require, rethrow_as, bit_or, max, set,
}
use mathlib.Core.List.{foldl}
use knish_io_client_cpp.Codec.Hex.{is_hex_digit, nibble, hex_digit}

abbrev pub limb_base : ℕ
limb_base = 2 ^ 32

-- `limbs_[index] |= value;`
unfoldable pub or_at : List ℕ → ℕ → ℕ → List ℕ
or_at limbs index value = set limbs index (bit_or (get_or limbs index 0) value)

-- The loop over the digits from the right; `i` counts them.
unfoldable pub from_hex_loop : ℕ → Text → List ℕ → List ℕ
unfolding or_at nibble
from_hex_loop i [] limbs = limbs
from_hex_loop i (c ∷ right_to_left) limbs =
    from_hex_loop (i + 1) right_to_left
      (or_at limbs (i / 8) (nibble c * 2 ^ (i % 8 * 4) % limb_base))

unfoldable pub from_hex_string : Text → Result (List ℕ)
unfolding from_hex_loop is_hex_digit
from_hex_string hex_str =
    if is_empty hex_str
    then ok (0 ∷ [])
    else require (all is_hex_digit hex_str) invalid_argument
      >> ok (from_hex_loop 0 (reverse hex_str) (replicate ((length hex_str + 8 - 1) / 8) 0))

unfoldable pub is_zero : List ℕ → Bool
is_zero limbs = foldl bit_or 0 limbs == 0

-- The eight hexadecimal digits of a limb, as `setw(8)` with fill '0' prints it.
unfoldable pub padded_limb : ℕ → Text
unfolding hex_digit
padded_limb limb = map (λ k. hex_digit (limb / 16 ^ k % 16)) (7 ∷ 6 ∷ 5 ∷ 4 ∷ 3 ∷ 2 ∷ 1 ∷ 0 ∷ [])

-- `std::hex` alone prints no zero in front (the limb is not 0 here).
unfoldable pub drop_zero_digits : Text → Text
drop_zero_digits [] = []
drop_zero_digits (c ∷ s) = let rest = drop_zero_digits s in if c == b'0' then rest else c ∷ s

-- The search for the most significant limb that is not 0, from the back, and the output from there.
unfoldable pub print_limbs : List ℕ → Text
print_limbs [] = codes "0"
print_limbs (limb ∷ lower) =
    let rest = print_limbs lower in
    if limb == 0
    then rest
    else drop_zero_digits (padded_limb limb) ++ concat (map padded_limb lower)

unfoldable pub to_hex_string : List ℕ → Text
unfolding is_zero print_limbs padded_limb drop_zero_digits
to_hex_string limbs = if is_zero limbs then codes "0" else print_limbs (reverse limbs)

-- The sums of two vectors of one size, and the last carry.
unfoldable pub constant_time_add : ℕ → List ℕ → List ℕ → List ℕ × ℕ
constant_time_add carry [] b = ([], carry)
constant_time_add carry (x ∷ a) [] = ([], carry)
constant_time_add carry (x ∷ a) (y ∷ b) =
    let sum = (x + y + carry) % 2 ^ 64 in
    let (result, last) = constant_time_add (sum / limb_base) a b in (sum % limb_base ∷ result, last)

-- `while (limbs_.size() > 1 && limbs_.back() == 0) limbs_.pop_back();`, on the limbs back to front.
unfoldable pub pop_zeros : List ℕ → List ℕ
pop_zeros [] = []
pop_zeros (back ∷ []) = back ∷ []
pop_zeros (back ∷ next ∷ front) =
    let popped = pop_zeros (next ∷ front) in if back == 0 then popped else back ∷ next ∷ front

unfoldable pub normalize : List ℕ → List ℕ
unfolding pop_zeros
normalize limbs = reverse (pop_zeros (reverse limbs))

-- A vector of `size` limbs that begins with a copy of `limbs`.
unfoldable pub pad_limbs : List ℕ → ℕ → List ℕ
pad_limbs limbs size = limbs ++ replicate (size - length limbs) 0

unfoldable pub add : List ℕ → List ℕ → List ℕ
unfolding constant_time_add normalize pad_limbs
add limbs other =
    let max_size = max (length limbs) (length other) in
    let (result, carry) =
      constant_time_add 0 (pad_limbs limbs max_size) (pad_limbs other max_size) in
    normalize (result ++ (carry % limb_base ∷ []))

unfoldable pub is_valid_hex : Text → Bool
unfolding is_hex_digit
is_valid_hex hex_str = if is_empty hex_str then false else all is_hex_digit hex_str

unfoldable pub constant_time_hex_add : Text → Text → Result Text
unfolding is_valid_hex from_hex_string add to_hex_string
constant_time_hex_add secret_hex position_hex =
    require (is_valid_hex secret_hex && is_valid_hex position_hex) invalid_argument
    >> rethrow_as runtime_error (do
      secret ← from_hex_string secret_hex
      position ← from_hex_string position_hex
      ok (to_hex_string (add secret position)))

-- 64 characters of [0-9a-g].
unfoldable pub is_signable_hash : Text → Bool
is_signable_hash hash =
    if not (length hash == 64)
    then false
    else all (λ c. leb b'0' c && leb c b'9' || leb b'a' c && leb c b'g') hash
