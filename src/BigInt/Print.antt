-- ===== src/BigInt/Print.antt =====
-- `CryptoBigInt::toHexString` writes the number of its limbs, in lower case and with no zero in front.
use knish_io_client_cpp.Base.{
  ℕ, zero, suc, ◌+◌, ◌*◌, ◌/◌, ◌%◌, ◌^◌, ◌≤◌, ◌<◌, ◌≡◌, refl, ap, sym, ◌∙◌, List, [], ◌∷◌, reverse,
  arith, ◌==◌, concat, All-reverse, true, false, Bool-cases, inl, inr, ==_iff, Text, bit_or, map,
  codes,
}
use mathlib.Core.List.{foldl, map-append}
use knish_io_client_cpp.Base.Bits.{bit_or_step, zero-bit_or}
use knish_io_client_cpp.Base.Powers.{little, big, big-reverse, big-append}
use knish_io_client_cpp.Codec.Hex.{nibble, nibble-hex_digit}
use knish_io_client_cpp.BigInt.{
  limb_base, is_zero, padded_limb, drop_zero_digits, print_limbs, to_hex_string,
}
use knish_io_client_cpp.BigInt.Sum.{IsLimbs}
use knish_io_client_cpp.BigInt.Parse.{hex_value}

-- The digits of a limb behind those of `acc`.
big-padded_limb :
    (acc l : ℕ) → l < limb_base → big 16 acc (map nibble (padded_limb l)) ≡ acc * limb_base + l
big-padded_limb acc l h =
    let d = λ (k : ℕ). l / 16 ^ k % 16 in
    let n = λ (k : ℕ). nibble-hex_digit (d k) (omega arith) in
    unfold padded_limb in rw (n 7, n 6, n 5, n 4, n 3, n 2, n 1, n 0) (omega arith)

big-padded_limbs :
    (acc : ℕ) (xs : List ℕ)
    → IsLimbs xs
    → big 16 acc (map nibble (concat (map padded_limb xs))) ≡ big limb_base acc xs
big-padded_limbs acc [] h = refl
big-padded_limbs acc (x ∷ xs) h =
    ap (big 16 acc) (map-append nibble (padded_limb x) _)
    ∙ big-append 16 acc (map nibble (padded_limb x)) _
    ∙ rw (big-padded_limb acc x h.0) (big-padded_limbs (acc * limb_base + x) xs h.1)

pub nibble_zero : nibble b'0' ≡ 0
unfolding nibble
nibble_zero = refl

big-drop_zero_digits :
    (s : Text) → big 16 0 (map nibble (drop_zero_digits s)) ≡ big 16 0 (map nibble s)
unfolding drop_zero_digits
big-drop_zero_digits [] = refl
big-drop_zero_digits (c ∷ s) = elim (Bool-cases (c == b'0')) [
  | inl e ↦ rw (e, (==_iff c b'0').0 e, nibble_zero) (big-drop_zero_digits s)
  | inr e ↦ rw e refl
]

big-print_limbs :
    (xs : List ℕ) → IsLimbs xs → big 16 0 (map nibble (print_limbs xs)) ≡ big limb_base 0 xs
unfolding print_limbs
big-print_limbs [] h = unfold nibble in refl
big-print_limbs (x ∷ xs) h = elim (Bool-cases (x == 0)) [
  | inl e ↦ rw (e, (==_iff x 0).0 e) (big-print_limbs xs h.1)
  | inr e ↦ rw e (
      ap (big 16 0) (map-append nibble (drop_zero_digits (padded_limb x)) _)
      ∙ big-append 16 0 (map nibble (drop_zero_digits (padded_limb x))) _
      ∙ rw (big-drop_zero_digits, big-padded_limb 0 x h.0)
          (big-padded_limbs (0 * limb_base + x) xs h.1))
]

-- Only zeros have the union zero.
bit_or-eq-zero : (n a b : ℕ) → a + b ≤ n → bit_or a b ≡ 0 → (a ≡ 0) × (b ≡ 0)
bit_or-eq-zero zero a b h e = omega arith
bit_or-eq-zero (suc n) zero b h e = (refl, omega (arith, zero-bit_or b))
bit_or-eq-zero (suc n) (suc a) b h e =
    let (p, q) =
      bit_or-eq-zero n (suc a / 2) (b / 2) (omega arith) (omega (arith, bit_or_step (suc a) b)) in
    omega (arith, bit_or_step (suc a) b)

foldl-zero :
    (acc : ℕ) (xs : List ℕ) → foldl bit_or acc xs ≡ 0 → (acc ≡ 0) × (little limb_base xs ≡ 0)
foldl-zero acc [] e = (e, refl)
foldl-zero acc (x ∷ xs) e =
    let (p, q) = foldl-zero (bit_or acc x) xs e in
    let (a, b) = bit_or-eq-zero (acc + x) acc x (omega arith) p in (a, omega arith)

hex_value_zero : hex_value (codes "0") ≡ 0
unfolding hex_value nibble
hex_value_zero = refl

is_zero_lem : (limbs : List ℕ) → is_zero limbs ≡ true → little limb_base limbs ≡ 0
unfolding is_zero
is_zero_lem limbs e = (foldl-zero 0 limbs ((==_iff _ 0).0 e)).1

pub to_hex_string_zero : (limbs : List ℕ) → is_zero limbs ≡ true → to_hex_string limbs ≡ codes "0"
unfolding to_hex_string
to_hex_string_zero limbs e = rw e

pub to_hex_string_print :
    (limbs : List ℕ) → is_zero limbs ≡ false → to_hex_string limbs ≡ print_limbs (reverse limbs)
unfolding to_hex_string
to_hex_string_print limbs e = rw e

hex_value-print_limbs : (xs : List ℕ) → IsLimbs xs → hex_value (print_limbs xs) ≡ big limb_base 0 xs
unfolding hex_value
hex_value-print_limbs xs h = big-print_limbs xs h

-- The text written for a vector of limbs has their number.
pub hex_value-to_hex_string :
    (limbs : List ℕ) → IsLimbs limbs → hex_value (to_hex_string limbs) ≡ little limb_base limbs
hex_value-to_hex_string limbs h = elim (Bool-cases (is_zero limbs)) [
  | inl e ↦ rw (to_hex_string_zero limbs e, hex_value_zero) (sym (is_zero_lem limbs e))
  | inr e ↦
      rw (to_hex_string_print limbs e) (
        hex_value-print_limbs (reverse limbs) (All-reverse _ limbs h) ∙ big-reverse limb_base limbs)
]
