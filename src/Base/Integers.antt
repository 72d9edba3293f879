-- ===== src/Base/Integers.antt =====
-- Machine integers and `std::stoi`, `std::stoll`. Signed overflow wraps, as the usual compilers make it.
use Prim.Native.Nat.{ℕ, ◌+◌, ◌-◌, ◌*◌, ◌%◌, ◌^◌}
use mathlib.Core.Bool.{Bool, true, false, ◌&&◌, ◌||◌}
use mathlib.Core.List.{[], ◌∷◌}
use knish_io_client_cpp.Base.Tests.{ltb, leb, ◌==◌, if◌then◌else◌}
use knish_io_client_cpp.Base.Texts.{Text}
use knish_io_client_cpp.Base.Errors.{Result, ok, ◌>>◌, require, invalid_argument, out_of_range}
use knish_io_client_cpp.Base.Int.{ℤ, pos, negsuc, pos_part, neg_part, sub_ℕ}

-- The value of an integer in `w` bits of two's complement.
unfoldable pub wrap : ℕ → ℤ → ℤ
wrap w a =
    let residue = (pos_part a + (2 ^ w - neg_part a % 2 ^ w)) % 2 ^ w in
    if ltb residue (2 ^ (w - 1)) then pos residue else negsuc (2 ^ w - residue - 1)

abbrev pub is_digit : ℕ → Bool
is_digit c = leb b'0' c && leb c b'9'

-- `std::isspace` in the "C" locale.
abbrev pub is_space : ℕ → Bool
is_space c = c == b' ' || leb 9 c && leb c 13

unfoldable pub skip_spaces : Text → Text
skip_spaces [] = []
skip_spaces (c ∷ s) = let rest = skip_spaces s in if is_space c then rest else c ∷ s

-- The number that the leading digits write, after `acc`.
unfoldable pub leading_digits : ℕ → Text → ℕ
leading_digits acc [] = acc
leading_digits acc (c ∷ s) =
    let rest = leading_digits (acc * 10 + (c - b'0')) s in if is_digit c then rest else acc

abbrev pub starts_with_digit : Text → Bool
starts_with_digit [] = false
starts_with_digit (c ∷ s) = is_digit c

-- A number without its sign, with the sign given.
unfoldable pub signed_digits : ℕ → Bool → Text → Result ℤ
signed_digits bits negative s =
    let magnitude = leading_digits 0 s in
    require (starts_with_digit s) invalid_argument
    >> require (leb magnitude (if negative then 2 ^ (bits - 1) else 2 ^ (bits - 1) - 1))
        out_of_range
    >> ok (if negative then sub_ℕ 0 magnitude else pos magnitude)

unfoldable pub parse_signed : ℕ → Text → Result ℤ
parse_signed bits [] = signed_digits bits false []
parse_signed bits (c ∷ s) =
    if c == b'-'
    then signed_digits bits true s
    else if c == b'+'
    then signed_digits bits false s
    else signed_digits bits false (c ∷ s)

unfoldable pub parse_integer : ℕ → Text → Result ℤ
parse_integer bits s = parse_signed bits (skip_spaces s)

abbrev pub stoi : Text → Result ℤ
stoi = parse_integer 32

abbrev pub stoll : Text → Result ℤ
stoll = parse_integer 64
