-- ===== src/Base/Numerals.antt =====
-- `std::to_string` and the parsers of integers: what is written is read back.
use knish_io_client_cpp.Base.{
  ℕ, zero, suc, ◌+◌, ◌-◌, ◌*◌, ◌/◌, ◌%◌, ◌^◌, ◌≤◌, ◌<◌, ◌≡◌, refl, ◌∙◌, true, false, Bool-cases,
  inl, inr, [], ◌∷◌, ◌++◌, arith, ltb, leb, ltb→lt, All-append, ◌==◌, All, Text, ok,
}
use knish_io_client_cpp.Base.Int.{pos, sub_ℕ}
use knish_io_client_cpp.Base.Decimal.{decimal, decimal_loop}
use knish_io_client_cpp.Base.Integers.{
  is_digit, is_space, skip_spaces, leading_digits, starts_with_digit, signed_digits, parse_signed,
  parse_integer,
}

abbrev pub IsDigit : ℕ → Type 0
IsDigit c = is_digit c ≡ true

-- The digits of `front` are read before those of `back`.
leading_digits-append :
    (acc : ℕ) (front back : Text)
    → All IsDigit front
    → leading_digits acc (front ++ back) ≡ leading_digits (leading_digits acc front) back
unfolding leading_digits
leading_digits-append acc [] back h = refl
leading_digits-append acc (c ∷ front) back h =
    rw h.0 (leading_digits-append (acc * 10 + (c - b'0')) front back h.1)

decimal_loop-digits : (fuel n : ℕ) → All IsDigit (decimal_loop fuel n)
unfolding decimal_loop
decimal_loop-digits zero n = tt
decimal_loop-digits (suc fuel) n = elim (Bool-cases (ltb n 10)) [
  | inl e ↦ rw e (ground arith, tt)
  | inr e ↦ rw e (
      All-append _ (decimal_loop fuel (n / 10)) _ (decimal_loop-digits fuel (n / 10))
        (ground arith, tt))
]

leading_digits-one : (acc d : ℕ) → d < 10 → leading_digits acc ((b'0' + d) ∷ []) ≡ acc * 10 + d
unfolding leading_digits
leading_digits-one acc d h = ground arith

leading_digits-decimal_loop : (fuel n : ℕ) → n < fuel → leading_digits 0 (decimal_loop fuel n) ≡ n
unfolding decimal_loop
leading_digits-decimal_loop zero n h = absurd (omega arith)
leading_digits-decimal_loop (suc fuel) n h = elim (Bool-cases (ltb n 10)) [
  | inl e ↦ rw e (leading_digits-one 0 n (ltb→lt n 10 e) ∙ omega arith)
  | inr e ↦ rw e (
      let many : 10 ≤ n = ground (arith, e) in
      leading_digits-append 0 (decimal_loop fuel (n / 10)) _ (decimal_loop-digits fuel (n / 10))
      ∙ leading_digits-one _ (n % 10) (omega arith)
      ∙ omega (arith, leading_digits-decimal_loop fuel (n / 10) (omega arith)))
]

starts-append :
    (front back : Text) → starts_with_digit front ≡ true → starts_with_digit (front ++ back) ≡ true
starts-append [] back h = cc
starts-append (c ∷ front) back h = h

decimal_loop-starts : (fuel n : ℕ) → n < fuel → starts_with_digit (decimal_loop fuel n) ≡ true
unfolding decimal_loop
decimal_loop-starts zero n h = absurd (omega arith)
decimal_loop-starts (suc fuel) n h = elim (Bool-cases (ltb n 10)) [
  | inl e ↦ rw e (ground arith)
  | inr e ↦
      (let many : 10 ≤ n = ground (arith, e) in
        rw e (
          starts-append (decimal_loop fuel (n / 10)) _
            (decimal_loop-starts fuel (n / 10) (omega arith))))
]

leb_of : (a b : ℕ) → a ≤ b → leb a b ≡ true
leb_of a b h = ground arith

parse_integer-plain :
    (bits : ℕ) (s : Text)
    → starts_with_digit s ≡ true
    → parse_integer bits s ≡ signed_digits bits false s
unfolding parse_integer parse_signed skip_spaces
parse_integer-plain bits [] h = refl
parse_integer-plain bits (c ∷ s) h =
    let no_space : is_space c ≡ false = ground (arith, h) in
    let no_minus : (c == b'-') ≡ false = ground (arith, h) in
    let no_plus : (c == b'+') ≡ false = ground (arith, h) in
    rw no_space (rw (no_minus, no_plus) refl)

parse_integer-minus :
    (bits : ℕ) (s : Text) → parse_integer bits (b'-' ∷ s) ≡ signed_digits bits true s
unfolding parse_integer parse_signed skip_spaces
parse_integer-minus bits s = refl

-- A number below 2^(bits-1), written by `std::to_string`, is read back.
pub parse_integer-decimal :
    (bits n : ℕ) → n < 2 ^ (bits - 1) → parse_integer bits (decimal n) ≡ ok (pos n)
unfolding signed_digits decimal
parse_integer-decimal bits n h =
    parse_integer-plain bits (decimal n) (decimal_loop-starts (suc n) n (omega arith))
    ∙ rw
        (
          leading_digits-decimal_loop (suc n) n (omega arith),
          decimal_loop-starts (suc n) n (omega arith),
        )
        (rw (leb_of n (2 ^ (bits - 1) - 1) (omega arith)) refl)

pub parse_integer-negative :
    (bits n : ℕ) → n < 2 ^ (bits - 1) → parse_integer bits (b'-' ∷ decimal n) ≡ ok (sub_ℕ 0 n)
unfolding signed_digits decimal
parse_integer-negative bits n h =
    parse_integer-minus bits (decimal n)
    ∙ rw
        (
          leading_digits-decimal_loop (suc n) n (omega arith),
          decimal_loop-starts (suc n) n (omega arith),
        )
        (rw (leb_of n (2 ^ (bits - 1)) (omega arith)) refl)

pub decimal-digits : (n : ℕ) → All IsDigit (decimal n)
unfolding decimal
decimal-digits n = decimal_loop-digits (suc n) n
