-- ===== src/Radix/Pack.antt =====
-- Packing digits into limbs keeps the number.
use knish_io_client_cpp.Base.{
  ℕ, ◌+◌, ◌*◌, ◌%◌, ◌^◌, ◌≤◌, ◌<◌, ◌≡◌, ◌⊎◌, refl, ap, ◌∙◌, [], ◌∷◌, arith, ◌==◌, length, All,
  false, Bool-cases, inl, inr, ==_iff, Text, map,
}
use knish_io_client_cpp.Base.Bits.{bit_or-disjoint}
use knish_io_client_cpp.Base.Powers.{big, pow-add}
use knish_io_client_cpp.BigInt.{limb_base}
use knish_io_client_cpp.BigInt.Sum.{IsLimbs}
use knish_io_client_cpp.BigInt.Parse.{hex_value}
use knish_io_client_cpp.BigInt.Print.{nibble_zero}
use knish_io_client_cpp.Codec.Hex.{nibble, IsHexDigit, nibble-lt}
use knish_io_client_cpp.Radix.{push_nibble, pack_digits, head_digits, skip_zeros}
use native.Mathlib.Nat.{pow-zero, pow-le-pow_right}

push_nibble-sum : (limb d : ℕ) → limb < 2 ^ 28 → d < 16 → push_nibble limb d ≡ limb * 16 + d
push_nibble-sum limb d h hd = ground (arith, bit_or-disjoint 4 limb d)

-- What the loop knows: `limb` holds `in_limb` digits, and the digits left fill the limbs.
record Packing (acc limb in_limb head left : ℕ) : Type 0 where
  holds : limb < 16 ^ in_limb
  open_limb : in_limb < head
  at_most : head ≤ 8
  whole : (acc ≡ 0) ⊎ (head ≡ 8)
  fills : (left + in_limb) % 8 ≡ head % 8

limb_small : (limb n : ℕ) → limb < 16 ^ n → n < 8 → limb < 2 ^ 28
limb_small limb n h hn =
    let top : 16 ^ n ≤ 16 ^ 7 = pow-le-pow_right (omega arith) {j = 7} (omega arith) in omega arith

next_limb : (n : ℕ) → 16 ^ (n + 1) ≡ 16 * 16 ^ n
next_limb n = pow-add 16 n 1 ∙ omega arith

big-pack_digits :
    (acc limb in_limb head : ℕ) (s : Text)
    → All IsHexDigit s
    → Packing acc limb in_limb head (length s)
    → (big limb_base acc (pack_digits s limb in_limb head)
        ≡ big 16 (acc * 16 ^ in_limb + limb) (map nibble s))
      × IsLimbs (pack_digits s limb in_limb head)
unfolding pack_digits
big-pack_digits acc limb in_limb head [] hs p =
    let e : in_limb ≡ 0 = done in let z : limb < 1 = empty e in (rw (e, pow-zero) (omega arith), tt)
  where
    done : in_limb ≡ 0
    done = ground (arith, p.fills, p.open_limb, p.at_most)

    empty : in_limb ≡ 0 → limb < 1
    empty e = rw (e, pow-zero) at (p.holds)
big-pack_digits acc limb in_limb head (c ∷ s) hs p = elim (Bool-cases (in_limb + 1 == head)) [
  | inl full ↦
      let is_head : in_limb + 1 ≡ head = (==_iff _ _).0 full in
      let (value, limbs) =
        big-pack_digits (acc * limb_base + (limb * 16 + d)) 0 0 8 s hs.1 (after_full is_head) in
      rw (full, pushed)
        (value ∙ ap (λ (t : ℕ). big 16 t (map nibble s)) (shift_full is_head), (small, limbs))
  | inr more ↦
      let (value, limbs) =
        big-pack_digits acc (limb * 16 + d) (in_limb + 1) head s hs.1 (after_more more) in
      rw (more, pushed) (value ∙ ap (λ (t : ℕ). big 16 t (map nibble s)) shift_more, limbs)
]
  where
    d : ℕ
    d = nibble c

    digit : d < 16
    digit = nibble-lt c hs.0

    fits : limb < 2 ^ 28
    fits = limb_small limb in_limb p.holds (omega arith)

    pushed : push_nibble limb d ≡ limb * 16 + d
    pushed = push_nibble-sum limb d fits digit

    small : limb * 16 + d < limb_base
    small = omega (arith, digit, fits)

    after_full : in_limb + 1 ≡ head → Packing (acc * limb_base + (limb * 16 + d)) 0 0 8 (length s)
    after_full e = record {
      holds = rw pow-zero (omega arith);
      open_limb = omega arith;
      at_most = omega arith;
      whole = inr refl;
      fills = omega (arith, p.fills);
    }

    after_more :
        (in_limb + 1 == head) ≡ false → Packing acc (limb * 16 + d) (in_limb + 1) head (length s)
    after_more e = record {
      holds = omega (arith, next_limb in_limb, p.holds, digit);
      open_limb = ground (arith, p.open_limb);
      at_most = p.at_most;
      whole = p.whole;
      fills = omega (arith, p.fills);
    }

    shift_full :
        in_limb + 1 ≡ head
        → (acc * limb_base + (limb * 16 + d)) * 16 ^ 0 + 0 ≡ (acc * 16 ^ in_limb + limb) * 16 + d
    shift_full e = elim p.whole [
      | inl z ↦ rw (z, pow-zero) (omega arith)
      | inr h ↦ let seven : in_limb ≡ 7 = omega arith in rw (seven, pow-zero) (omega arith)
    ]

    shift_more : acc * 16 ^ (in_limb + 1) + (limb * 16 + d) ≡ (acc * 16 ^ in_limb + limb) * 16 + d
    shift_more = omega (arith, ap (λ (t : ℕ). acc * t) (next_limb in_limb))

pub skip_zeros-value : (s : Text) → big 16 0 (map nibble (skip_zeros s)) ≡ big 16 0 (map nibble s)
unfolding skip_zeros
skip_zeros-value [] = refl
skip_zeros-value (c ∷ s) = elim (Bool-cases (c == b'0')) [
  | inl e ↦ rw (e, (==_iff c b'0').0 e, nibble_zero) (skip_zeros-value s)
  | inr e ↦ rw e refl
]

head_digits_range :
    (n : ℕ) → (0 < head_digits n) × (head_digits n ≤ 8) × (head_digits n % 8 ≡ n % 8)
unfolding head_digits
head_digits_range n = (ground arith, ground arith, ground arith)

-- A text of hexadecimal digits and its limbs have one number.
pub big-pack :
    (s : Text)
    → All IsHexDigit s
    → let limbs = pack_digits s 0 0 (head_digits (length s)) in
      (big limb_base 0 limbs ≡ hex_value s) × IsLimbs limbs
unfolding hex_value
big-pack s hs =
    let (value, limbs) = big-pack_digits 0 0 0 (head_digits (length s)) s hs start in (value, limbs)
  where
    range :
        (0 < head_digits (length s))
        × (head_digits (length s) ≤ 8)
        × (head_digits (length s) % 8 ≡ length s % 8)
    range = head_digits_range (length s)

    start : Packing 0 0 0 (head_digits (length s)) (length s)
    start = record {
      holds = rw pow-zero (omega arith);
      open_limb = range.0;
      at_most = range.1;
      whole = inl refl;
      fills = omega (arith, range.2);
    }
