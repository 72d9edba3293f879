-- ===== src/Storage/Base64.antt =====
-- `encodeBase64` and `decodeBase64` of src/storage/SecretEnvelope.cpp.
pub mod RoundTrip
use knish_io_client_cpp.Base.{
  ℕ, ◌+◌, ◌*◌, ◌%◌, ◌^◌, Bool, true, false, not, List, [], ◌∷◌, ◌++◌, ◌==◌, if◌then◌else◌, length,
  is_empty, Text, Result, ok, err, ◌>>=◌, ◌>>◌, require, decryption_failed, out_of_range, bit_or,
  Option, none, some,
}
use knish_io_client_cpp.Base.Integers.{is_space}
use knish_io_client_cpp.Codec.Base64.{encode_group, table, unpack}

unfoldable pub encode_base64 : List ℕ → Text
encode_base64 [] = []
encode_base64 (a ∷ []) = encode_group (a ∷ [])
encode_base64 (a ∷ b ∷ []) = encode_group (a ∷ b ∷ [])
encode_base64 (a ∷ b ∷ c ∷ data') = encode_group (a ∷ b ∷ c ∷ []) ++ encode_base64 data'

unfoldable pub without_spaces : Text → Text
without_spaces [] = []
without_spaces (c ∷ s) = let rest = without_spaces s in if is_space c then rest else c ∷ rest

-- The inner loop on one character, and on the four of a group.
unfoldable pub checked_step : ℕ × ℕ → ℕ → Result (ℕ × ℕ)
checked_step (value, count) c = if c == b'=' then ok (value, count) else elim (table c) [
  | none ↦ err decryption_failed
  | some index ↦ ok (bit_or (value * 2 ^ 6 % 2 ^ 32) index, count + 1)
]

unfoldable pub checked_fold : ℕ × ℕ → Text → Result (ℕ × ℕ)
checked_fold state [] = ok state
checked_fold state (c ∷ s) = checked_step state c >>= λ next. checked_fold next s

-- The outer loop. The length is a multiple of four here; reading past the end is `out_of_range`.
unfoldable pub decode_groups : Text → Result (List ℕ)
decode_groups [] = ok []
decode_groups (a ∷ b ∷ c ∷ d ∷ str) = do
  read ← checked_fold (0, 0) (a ∷ b ∷ c ∷ d ∷ [])
  rest ← decode_groups str
  ok (unpack read ++ rest)
decode_groups (a ∷ []) = err out_of_range
decode_groups (a ∷ b ∷ []) = err out_of_range
decode_groups (a ∷ b ∷ c ∷ []) = err out_of_range

unfoldable pub decode_base64 : Text → Result (List ℕ)
decode_base64 str =
    if is_empty str
    then ok []
    else require (length (without_spaces str) % 4 == 0) decryption_failed
      >> decode_groups (without_spaces str)
