-- ===== src/Floats.antt =====
-- Floating-point numbers, which the client only calls: `strtod`, `std::stold` and the operations on
-- `double` and `long double` that src/Molecule.cpp uses.
use knish_io_client_cpp.Base.{ℕ, ◌<◌, ◌^◌, ◌≡◌, Bool, length, ◌∷◌, Text, Result, ok}
use knish_io_client_cpp.Base.Int.{ℤ, pos, magnitude, sub_ℕ, ◌+ℤ◌, eqb_ℤ, ltb_ℤ}
use knish_io_client_cpp.Base.Decimal.{decimal}

pub record Floats : Type 1 where
  pub Double : Type 0
  -- The value, and how many characters were read.
  pub strtod : Text → Double × ℕ
  pub zero_double : Double
  pub add_double : Double → Double → Double
  pub is_zero_double : Double → Bool
  pub LongDouble : Type 0
  pub stold : Text → Result LongDouble
  pub zero_long : LongDouble
  pub add_long : LongDouble → LongDouble → LongDouble
  -- `x < 0.0L`
  pub is_negative_long : LongDouble → Bool
  -- `std::fabs(x) < 1e-9L`
  pub is_tiny_long : LongDouble → Bool

-- Integers of at most 53 bits are exact in both types, and -0 is left out.
pub record AreExact (f : Floats) : Type 0 where
  pub double_of : ℤ → f.Double
  pub strtod-decimal :
      (n : ℕ) → n < 2 ^ 53 → f.strtod (decimal n) ≡ (double_of (pos n), length (decimal n))
  pub strtod-negative :
      (n : ℕ)
      → 0 < n
      → n < 2 ^ 53
      → f.strtod (b'-' ∷ decimal n) ≡ (double_of (sub_ℕ 0 n), length (b'-' ∷ decimal n))
  pub zero_double_of : f.zero_double ≡ double_of (pos 0)
  pub add_double_of :
      (a b : ℤ)
      → magnitude a < 2 ^ 53
      → magnitude b < 2 ^ 53
      → f.add_double (double_of a) (double_of b) ≡ double_of (a +ℤ b)
  pub is_zero_double_of : (a : ℤ) → f.is_zero_double (double_of a) ≡ eqb_ℤ a (pos 0)
  pub long_of : ℤ → f.LongDouble
  pub stold-decimal : (n : ℕ) → n < 2 ^ 53 → f.stold (decimal n) ≡ ok (long_of (pos n))
  pub stold-negative :
      (n : ℕ) → 0 < n → n < 2 ^ 53 → f.stold (b'-' ∷ decimal n) ≡ ok (long_of (sub_ℕ 0 n))
  pub zero_long_of : f.zero_long ≡ long_of (pos 0)
  pub add_long_of :
      (a b : ℤ)
      → magnitude a < 2 ^ 53
      → magnitude b < 2 ^ 53
      → f.add_long (long_of a) (long_of b) ≡ long_of (a +ℤ b)
  pub is_negative_long_of : (a : ℤ) → f.is_negative_long (long_of a) ≡ ltb_ℤ a (pos 0)
  pub is_tiny_long_of : (a : ℤ) → f.is_tiny_long (long_of a) ≡ eqb_ℤ a (pos 0)
