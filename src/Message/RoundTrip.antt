-- ===== src/Message/RoundTrip.antt =====
-- Messages of src/crypto.cpp are read back.
use knish_io_client_cpp.Base.{
  ℕ, suc, ◌+◌, ◌≡◌, refl, true, false, not, List, [], ◌∷◌, ◌==◌, ltb, arith, length, is_empty, Text,
  ok, some, ==_iff,
}
use knish_io_client_cpp.Codec.Hex.{to_hex_string, from_hex_string-to_hex_string}
use knish_io_client_cpp.Message.{Sodium, IsSealedBox, encrypt_message, open_box, decrypt_message}

to_hex_string-is_empty :
    (bs : List ℕ) (n : ℕ) → length bs ≡ suc n → is_empty (to_hex_string bs) ≡ false
unfolding to_hex_string
to_hex_string-is_empty [] n h = absurd (omega arith)
to_hex_string-is_empty (b ∷ bs) n h = refl

longer :
    (bs : List ℕ) (size n : ℕ)
    → length bs ≡ size + suc n
    → (not (ltb (length bs) size) ≡ true) × ((length bs == size) ≡ false)
longer bs size n h = (ground arith, ground arith)

module _ (sodium : Sodium) (laws : IsSealedBox sodium) (ready : sodium.ready ≡ true) where
  -- A message that the library seals for the public key of a pair is encrypted and is decrypted with the pair;
  -- the empty message too, which is not sealed.
  pub decrypt_message-encrypt_message :
      (seed drawn public_key private_key boxed : List ℕ) (message : Text)
      → sodium.box_keypair seed ≡ some (public_key, private_key)
      → sodium.box_seal drawn message public_key ≡ some boxed
      → (e : Text) × (encrypt_message sodium drawn message public_key ≡ ok e)
        × (decrypt_message sodium e public_key private_key ≡ ok message)
  unfolding encrypt_message decrypt_message open_box
  decrypt_message-encrypt_message seed drawn pk sk boxed [] pair sealed =
      ([], rw ready refl, rw ready refl)
  decrypt_message-encrypt_message seed drawn pk sk boxed (x ∷ message) pair sealed =
      let (size, bytes, opened) = laws.open-seal seed drawn pk sk boxed (x ∷ message) pair sealed in
      let (hpk, hsk) = laws.keypair-length seed pk sk pair in
      let (long, more) = longer boxed sodium.seal_bytes (length message) size in
      let there =
        to_hex_string-is_empty boxed (sodium.seal_bytes + length message) (omega (arith, size)) in
      (
        to_hex_string boxed,
        rw (ready, (==_iff _ _).1 hpk, sealed) refl,
        rw
            (
              ready,
              there,
              (==_iff _ _).1 hpk,
              (==_iff _ _).1 hsk,
              from_hex_string-to_hex_string boxed bytes,
              long,
              more,
              opened,
            )
            refl,
      )
