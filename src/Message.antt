-- ===== src/Message.antt =====
-- src/crypto.cpp: messages in the sealed boxes of libsodium, and the keys for them. Wiping memory has no effect
-- here, except on the keys that the caller sees.
pub mod RoundTrip
use knish_io_client_cpp.Base.{
  ℕ, zero, suc, Bool, true, false, not, List, [], ◌==◌, ltb, length, map, ◌∷◌, if◌then◌else◌,
  is_empty, ◌≡◌, ◌+◌, All, IsByte, Text, Result, ok, ◌>>=◌, ◌>>◌, require, rethrow_as,
  runtime_error, invalid_argument, Option, none, some,
}
use knish_io_client_cpp.Codec.Hex.{to_hex_string, from_hex_string}
use knish_io_client_cpp.Storage.Envelope.{or_throw}

-- libsodium: `none` where a call reports a failure. What it draws at random is the first argument.
pub record Sodium : Type 0 where
  -- Whether `sodium_init` succeeds.
  pub ready : Bool
  pub public_key_bytes : ℕ
  pub secret_key_bytes : ℕ
  pub seal_bytes : ℕ
  pub box_seal : List ℕ → Text → List ℕ → Option (List ℕ)
  pub box_seal_open : List ℕ → List ℕ → List ℕ → Option Text
  pub box_keypair : List ℕ → Option (List ℕ × List ℕ)

-- A pair of keys has the sizes of the constants, and a box for the public key is opened with the pair.
pub record IsSealedBox (sodium : Sodium) : Type 0 where
  pub keypair-length :
      (drawn public_key private_key : List ℕ)
      → sodium.box_keypair drawn ≡ some (public_key, private_key)
      → (length public_key ≡ sodium.public_key_bytes)
        × (length private_key ≡ sodium.secret_key_bytes)
  pub open-seal :
      (seed drawn public_key private_key boxed : List ℕ) (message : Text)
      → sodium.box_keypair seed ≡ some (public_key, private_key)
      → sodium.box_seal drawn message public_key ≡ some boxed
      → (length boxed ≡ sodium.seal_bytes + length message)
        × All IsByte boxed
        × (sodium.box_seal_open boxed public_key private_key ≡ some message)

abbrev zeroed : List ℕ → List ℕ
zeroed bytes = map (λ b. 0) bytes

abbrev zeros : ℕ → List ℕ
zeros zero = []
zeros (suc n) = 0 ∷ zeros n

module _ (sodium : Sodium) where
  unfoldable pub encrypt_message : List ℕ → Text → List ℕ → Result Text
  encrypt_message drawn message public_key =
      require sodium.ready runtime_error
      >> (if is_empty message
          then ok []
          else require (length public_key == sodium.public_key_bytes) invalid_argument
            >> (or_throw runtime_error (sodium.box_seal drawn message public_key) >>= λ encrypted.
                ok (to_hex_string encrypted)))

  -- The body of the `try`.
  unfoldable pub open_box : Text → List ℕ → List ℕ → Result Text
  open_box message public_key private_key = from_hex_string message >>= λ bytes.
      require (not (ltb (length bytes) sodium.seal_bytes)) invalid_argument
      >> (if length bytes == sodium.seal_bytes
          then ok []
          else or_throw runtime_error (sodium.box_seal_open bytes public_key private_key))

  unfoldable pub decrypt_message : Text → List ℕ → List ℕ → Result Text
  decrypt_message message public_key private_key =
      require sodium.ready runtime_error
      >> (if is_empty message
          then ok []
          else require (length public_key == sodium.public_key_bytes) invalid_argument
            >> (require (length private_key == sodium.secret_key_bytes) invalid_argument
                >> rethrow_as runtime_error (open_box message public_key private_key)))

  -- What the pair of keys is where none was made: zeros in what was resized.
  abbrev pub kept_keys : Option (List ℕ × List ℕ) → Bool × (List ℕ × List ℕ)
  kept_keys (some keys) = (true, keys)
  kept_keys none = (false, (zeros sodium.public_key_bytes, zeros sodium.secret_key_bytes))

  -- The call takes the keys that are there and returns whether it made new ones, with the keys after it.
  unfoldable pub generate_public_and_private_keys :
      List ℕ → List ℕ × List ℕ → Bool × (List ℕ × List ℕ)
  generate_public_and_private_keys drawn (public_key, private_key) =
      if sodium.ready
      then kept_keys (sodium.box_keypair drawn)
      else (false, (zeroed public_key, zeroed private_key))
