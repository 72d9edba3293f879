-- ===== src/Hash.antt =====
-- `shake256` and `shake256Hex` of src/utility.cpp.
use knish_io_client_cpp.Base.{
  ℕ, ◌/◌, ◌%◌, ◌*◌, ◌<◌, ◌≡◌, refl, ap, ◌∙◌, not, ◌||◌, List, arith, ◌==◌, Text, All, length,
  Result, ok, ◌>>=◌, ◌>>◌, require, invalid_argument,
}
use knish_io_client_cpp.Libraries.{Libraries}
use knish_io_client_cpp.Codec.Hex.{
  to_hex_string, IsLowerHex, to_hex_string-IsLowerHex, length-to_hex_string,
}

module _ (lib : Libraries) where
  unfoldable pub shake256 : Text → ℕ → Result (List ℕ)
  shake256 str bits =
      require (not (bits == 0 || not (bits % 8 == 0))) invalid_argument
      >> ok (lib.fips202_shake256 str (bits / 8))

  unfoldable pub shake256_hex : Text → ℕ → Result Text
  shake256_hex str size = shake256 str size >>= λ bytes. ok (to_hex_string bytes)

  -- The digest of `n` bytes in hexadecimal, which the checked calls return.
  unfoldable pub hex_digest : Text → ℕ → Text
  hex_digest str n = to_hex_string (lib.fips202_shake256 str n)

  pub shake256-ok : (s : Text) (n : ℕ) → 0 < n → shake256 s (8 * n) ≡ ok (lib.fips202_shake256 s n)
  unfolding shake256
  shake256-ok s n h = ground arith

  pub shake256_hex-ok : (s : Text) (n : ℕ) → 0 < n → shake256_hex s (8 * n) ≡ ok (hex_digest s n)
  unfolding shake256_hex hex_digest
  shake256_hex-ok s n h = rw (shake256-ok s n h) refl

  pub hex_digest-IsLowerHex : (s : Text) (n : ℕ) → All IsLowerHex (hex_digest s n)
  unfolding hex_digest
  hex_digest-IsLowerHex s n = to_hex_string-IsLowerHex _ (lib.fips202_shake256-bytes s n)

  pub length-hex_digest : (s : Text) (n : ℕ) → length (hex_digest s n) ≡ 2 * n
  unfolding hex_digest
  length-hex_digest s n =
      length-to_hex_string _ ∙ ap (λ (t : ℕ). 2 * t) (lib.length-fips202_shake256 s n)
