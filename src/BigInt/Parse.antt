-- ===== src/BigInt/Parse.antt =====
-- `CryptoBigInt::fromHexString` reads the number that the digits write.
use knish_io_client_cpp.Base.{
  ℕ, zero, suc, ◌+◌, ◌-◌, ◌*◌, ◌/◌, ◌%◌, ◌^◌, ◌≤◌, ◌<◌, ◌≡◌, refl, ap, sym, ◌∙◌, List, [], ◌∷◌,
  reverse, arith, length, get_or, set, replicate, all, All, All-replicate, All-reverse, map-reverse,
  length-reverse, length-replicate, true, Text, ok, bit_or, &&_split, map,
}
use knish_io_client_cpp.Base.Bits.{bit_or-disjoint_right}
use knish_io_client_cpp.Base.Powers.{little, big, little-reverse, pow-add, pow-mul, little-zeros}
use knish_io_client_cpp.Codec.Hex.{is_hex_digit, nibble, IsHexDigit, nibble-lt}
use knish_io_client_cpp.BigInt.{limb_base, or_at, from_hex_loop, from_hex_string}
use knish_io_client_cpp.BigInt.Sum.{IsLimbs}
use native.Mathlib.Nat.{pow-suc, pow-zero, mul_comm, pow-le-pow_right, mod-eq_of_lt}

-- The number that a text of hexadecimal digits stands for.
unfoldable pub hex_value : Text → ℕ
hex_value s = big 16 0 (map nibble s)

-- A limb's digits weigh as much as its place: 8 digits to a limb.
limb_weight : (i : ℕ) → limb_base ^ (i / 8) * 2 ^ (i % 8 * 4) ≡ 16 ^ i
limb_weight i =
    let e : i ≡ 8 * (i / 8) + i % 8 = omega arith in
    let d : 2 ^ (i % 8 * 4) ≡ 16 ^ (i % 8) =
      ap (λ (t : ℕ). 2 ^ t) (mul_comm (i % 8) 4) ∙ pow-mul 2 4 (i % 8) in
    ap (λ (t : ℕ). limb_base ^ (i / 8) * t) d
    ∙ ap (λ (t : ℕ). t * 16 ^ (i % 8)) (sym (pow-mul 16 8 (i / 8)))
    ∙ sym (pow-add 16 (8 * (i / 8)) (i % 8))
    ∙ ap (λ (t : ℕ). 16 ^ t) (sym e)

-- A write at one place changes the number by its weight.
little-set :
    (limbs : List ℕ) (k v : ℕ)
    → k < length limbs
    → little limb_base (set limbs k v) + limb_base ^ k * get_or limbs k 0
      ≡ little limb_base limbs + limb_base ^ k * v
little-set [] k v h = absurd (omega arith)
little-set (x ∷ limbs) zero v h = rw pow-zero (omega arith)
little-set (x ∷ limbs) (suc k) v h = omega (
  arith,
  ap (λ (t : ℕ). limb_base * t) (little-set limbs k v (omega arith)),
  ap (λ (t : ℕ). t * v) (pow-suc limb_base k),
  ap (λ (t : ℕ). t * get_or limbs k 0) (pow-suc limb_base k),
)

little-ge-limb :
    (limbs : List ℕ) (k : ℕ) → limb_base ^ k * get_or limbs k 0 ≤ little limb_base limbs
little-ge-limb [] k = omega arith
little-ge-limb (x ∷ limbs) zero = rw pow-zero (omega arith)
little-ge-limb (x ∷ limbs) (suc k) =
    omega
      (arith, little-ge-limb limbs k, ap (λ (t : ℕ). t * get_or limbs k 0) (pow-suc limb_base k))

-- A number below 16 ^ i leaves the digits from `i` on free in its limb.
limb_free :
    (limbs : List ℕ) (i : ℕ)
    → little limb_base limbs < 16 ^ i
    → get_or limbs (i / 8) 0 < 2 ^ (i % 8 * 4)
limb_free limbs i h =
    lt_of_mul (limb_base ^ (i / 8)) _ _ (omega (arith, little-ge-limb limbs (i / 8), limb_weight i))
  where
    lt_of_mul : (p a b : ℕ) → p * a < p * b → a < b
    lt_of_mul p a b h = grind arith

digit_fits : (d l i : ℕ) → d < 16 → l < 2 ^ (i % 8 * 4) → d * 2 ^ (i % 8 * 4) + l < limb_base
digit_fits d l i h hl =
    let top : 2 ^ (i % 8 * 4) ≤ 2 ^ 28 = pow-le-pow_right (omega arith) {j = 28} (omega arith) in
    under (2 ^ (i % 8 * 4)) top hl
  where
    under : (p : ℕ) → p ≤ 2 ^ 28 → l < p → d * p + l < limb_base
    under p top hl = grind arith

set-IsLimbs : (limbs : List ℕ) (k v : ℕ) → IsLimbs limbs → v < limb_base → IsLimbs (set limbs k v)
set-IsLimbs [] k v h hv = tt
set-IsLimbs (x ∷ limbs) zero v h hv = (hv, h.1)
set-IsLimbs (x ∷ limbs) (suc k) v h hv = (h.0, set-IsLimbs limbs k v h.1 hv)

length-set : (limbs : List ℕ) (k v : ℕ) → length (set limbs k v) ≡ length limbs
length-set [] k v = refl
length-set (x ∷ limbs) zero v = refl
length-set (x ∷ limbs) (suc k) v = ap suc (length-set limbs k v)

get_or-IsLimb : (limbs : List ℕ) (k : ℕ) → IsLimbs limbs → get_or limbs k 0 < limb_base
get_or-IsLimb [] k h = omega arith
get_or-IsLimb (x ∷ limbs) zero h = h.0
get_or-IsLimb (x ∷ limbs) (suc k) h = get_or-IsLimb limbs k h.1

next_power : (i : ℕ) → 16 ^ (i + 1) ≡ 16 * 16 ^ i
next_power i = pow-add 16 i 1 ∙ mul_comm (16 ^ i) 16

-- One round of the loop puts the digit in its place.
or_at_lem :
    (i d : ℕ) (limbs : List ℕ)
    → d < 16
    → i / 8 < length limbs
    → little limb_base limbs < 16 ^ i
    → IsLimbs limbs
    → let limbs' = or_at limbs (i / 8) (d * 2 ^ (i % 8 * 4) % limb_base) in
      (little limb_base limbs' ≡ little limb_base limbs + d * 16 ^ i)
      × (little limb_base limbs' < 16 ^ (i + 1))
      × IsLimbs limbs'
      × (length limbs' ≡ length limbs)
unfolding or_at
or_at_lem i d limbs hd room small hl =
    let k = i / 8 in
    let p = 2 ^ (i % 8 * 4) in
    let w = limb_base ^ k in
    let l = get_or limbs k 0 in
    let free : l < p = limb_free limbs i small in
    let fits : d * p + l < limb_base = digit_fits d l i hd free in
    let or : bit_or l (d * p % limb_base) ≡ d * p + l =
      ap (λ (t : ℕ). bit_or l t) (mod-eq_of_lt (omega arith))
      ∙ bit_or-disjoint_right (i % 8 * 4) d l free in
    let value : little limb_base (set limbs k (d * p + l)) ≡ little limb_base limbs + d * 16 ^ i =
      omega (arith, little-set limbs k (d * p + l) room, ap (λ (t : ℕ). d * t) (limb_weight i)) in
    rw or (
      value,
      grind (arith, value, next_power i),
      set-IsLimbs limbs k (d * p + l) hl fits,
      length-set limbs k (d * p + l),
    )

-- The value of a digit and what stands to its left, read from the right.
right_value : Text → ℕ
right_value s = little 16 (map nibble s)

from_hex_loop_lem :
    (i : ℕ) (s : Text) (limbs : List ℕ)
    → All IsHexDigit s
    → i + length s ≤ 8 * length limbs
    → little limb_base limbs < 16 ^ i
    → IsLimbs limbs
    → let limbs' = from_hex_loop i s limbs in
      (little limb_base limbs' ≡ little limb_base limbs + 16 ^ i * right_value s) × IsLimbs limbs'
unfolding from_hex_loop right_value
from_hex_loop_lem i [] limbs hs room small hl = (omega arith, hl)
from_hex_loop_lem i (c ∷ s) limbs hs room small hl =
    let (value, small', limbs', size) =
      or_at_lem i (nibble c) limbs (nibble-lt c hs.0) (omega arith) small hl in
    let (rest, last) = from_hex_loop_lem (i + 1) s _ hs.1 (omega arith) small' limbs' in
    (omega (arith, rest, value, ap (λ (t : ℕ). t * right_value s) (next_power i)), last)

pub All-IsHexDigit : (s : Text) → all is_hex_digit s ≡ true → All IsHexDigit s
All-IsHexDigit [] h = tt
All-IsHexDigit (c ∷ s) h =
    let (first, rest) = &&_split (is_hex_digit c) _ h in (first, All-IsHexDigit s rest)

right_value-reverse : (s : Text) → right_value (reverse s) ≡ hex_value s
unfolding right_value hex_value
right_value-reverse s = ap (little 16) (map-reverse nibble s) ∙ little-reverse 16 (map nibble s)

zeros-IsLimbs : (n : ℕ) → IsLimbs (replicate n 0)
zeros-IsLimbs n = All-replicate _ n 0 (omega arith)

-- A valid text is read as the limbs of its number.
pub from_hex_string_lem :
    (s : Text)
    → all is_hex_digit s ≡ true
    → (limbs : List ℕ) × (from_hex_string s ≡ ok limbs)
      × IsLimbs limbs
      × (little limb_base limbs ≡ hex_value s)
unfolding from_hex_string
from_hex_string_lem [] h = (0 ∷ [], refl, (omega arith, tt), unfold hex_value in refl)
from_hex_string_lem (c ∷ s) h =
    let n = (length (c ∷ s) + 8 - 1) / 8 in
    let start = replicate n 0 in
    let zeros : little limb_base start ≡ 0 = little-zeros limb_base n in
    let (value, limbs) =
      from_hex_loop_lem 0 (reverse (c ∷ s)) start
        (All-reverse IsHexDigit (c ∷ s) (All-IsHexDigit (c ∷ s) h))
        (omega (arith, length-reverse (c ∷ s), length-replicate {A = ℕ} n 0)) (omega (arith, zeros))
        (zeros-IsLimbs n) in
    (
      from_hex_loop 0 (reverse (c ∷ s)) start,
      rw h refl,
      limbs,
      omega (
        arith,
        value,
        zeros,
        right_value-reverse (c ∷ s),
        ap (λ (t : ℕ). t * right_value (reverse (c ∷ s))) (pow-zero 16),
      ),
    )
