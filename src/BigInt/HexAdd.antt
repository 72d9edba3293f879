-- ===== src/BigInt/HexAdd.antt =====
-- `WalletCrypto::constantTimeHexAdd` against addition of natural numbers.
use knish_io_client_cpp.Base.{
  ℕ, ◌+◌, ◌/◌, ◌%◌, ◌^◌, ◌≡◌, refl, ◌∙◌, List, [], ◌∷◌, reverse, arith, ◌==◌, concat, All,
  All-append, true, Bool-cases, inl, inr, Text, map, all, ok, codes,
}
use knish_io_client_cpp.Codec.Hex.{is_hex_digit, IsLowerHex, is_lower_hex, hex_digit-IsLowerHex}
use knish_io_client_cpp.BigInt.{
  padded_limb, drop_zero_digits, print_limbs, to_hex_string, is_zero, add, is_valid_hex,
  constant_time_hex_add,
}
use knish_io_client_cpp.BigInt.Sum.{little-add}
use knish_io_client_cpp.BigInt.Parse.{hex_value, from_hex_string_lem}
use knish_io_client_cpp.BigInt.Print.{
  hex_value-to_hex_string, to_hex_string_zero, to_hex_string_print,
}

padded_limb-IsLowerHex : (l : ℕ) → All IsLowerHex (padded_limb l)
unfolding padded_limb
padded_limb-IsLowerHex l =
    let d = λ (k : ℕ). hex_digit-IsLowerHex (l / 16 ^ k % 16) (omega arith) in
    (d 7, (d 6, (d 5, (d 4, (d 3, (d 2, (d 1, (d 0, tt))))))))

padded_limbs-IsLowerHex : (xs : List ℕ) → All IsLowerHex (concat (map padded_limb xs))
padded_limbs-IsLowerHex [] = tt
padded_limbs-IsLowerHex (x ∷ xs) =
    All-append _ (padded_limb x) _ (padded_limb-IsLowerHex x) (padded_limbs-IsLowerHex xs)

drop_zero_digits-IsLowerHex : (s : Text) → All IsLowerHex s → All IsLowerHex (drop_zero_digits s)
unfolding drop_zero_digits
drop_zero_digits-IsLowerHex [] h = tt
drop_zero_digits-IsLowerHex (c ∷ s) h = ground (arith, drop_zero_digits-IsLowerHex s h.1)

zero-IsLowerHex : All IsLowerHex (codes "0")
unfolding is_lower_hex
zero-IsLowerHex = (refl, tt)

print_limbs-IsLowerHex : (xs : List ℕ) → All IsLowerHex (print_limbs xs)
unfolding print_limbs
print_limbs-IsLowerHex [] = zero-IsLowerHex
print_limbs-IsLowerHex (x ∷ xs) = elim (Bool-cases (x == 0)) [
  | inl e ↦ rw e (print_limbs-IsLowerHex xs)
  | inr e ↦ rw e (
      All-append _ _ _ (drop_zero_digits-IsLowerHex _ (padded_limb-IsLowerHex x))
        (padded_limbs-IsLowerHex xs))
]

to_hex_string-IsLowerHex : (limbs : List ℕ) → All IsLowerHex (to_hex_string limbs)
to_hex_string-IsLowerHex limbs = elim (Bool-cases (is_zero limbs)) [
  | inl e ↦ rw (to_hex_string_zero limbs e) zero-IsLowerHex
  | inr e ↦ rw (to_hex_string_print limbs e) (print_limbs-IsLowerHex (reverse limbs))
]

is_valid_hex-all : (s : Text) → is_valid_hex s ≡ true → all is_hex_digit s ≡ true
unfolding is_valid_hex
is_valid_hex-all [] h = cc
is_valid_hex-all (c ∷ s) h = h

-- On two texts of hexadecimal digits, neither of them empty, the call returns a lower-case text whose
-- number is the sum of theirs, whatever their lengths.
pub constant_time_hex_add-sum :
    (secret_hex position_hex : Text)
    → is_valid_hex secret_hex ≡ true
    → is_valid_hex position_hex ≡ true
    → (r : Text) × (constant_time_hex_add secret_hex position_hex ≡ ok r)
      × (hex_value r ≡ hex_value secret_hex + hex_value position_hex)
      × All IsLowerHex r
unfolding constant_time_hex_add
constant_time_hex_add-sum a b ha hb =
    let (la, ea, limbs_a, va) = from_hex_string_lem a (is_valid_hex-all a ha) in
    let (lb, eb, limbs_b, vb) = from_hex_string_lem b (is_valid_hex-all b hb) in
    let (limbs, sum) = little-add la lb limbs_a limbs_b in
    (
      to_hex_string (add la lb),
      rw (ha, hb, ea, eb) refl,
      hex_value-to_hex_string (add la lb) limbs ∙ sum ∙ rw (va, vb) refl,
      to_hex_string-IsLowerHex (add la lb),
    )
