-- ===== src/Storage/Envelope/RoundTrip.antt =====
-- `open` returns what `seal` was given.
use knish_io_client_cpp.Base.{
  ℕ, ◌-◌, ◌≡◌, ◌∙◌, refl, ap, false, List, ◌++◌, ltb, length, length-append, take-append,
  drop-append, All, All-append, IsByte, Text, codes, ok, arith, some, decryption_failed,
}
use knish_io_client_cpp.Base.Int.{pos}
use knish_io_client_cpp.Base.Integers.{wrap}
use knish_io_client_cpp.Storage.Libraries.{OpenSsl, IsAead}
use knish_io_client_cpp.Storage.Base64.{encode_base64, decode_base64}
use knish_io_client_cpp.Storage.Base64.RoundTrip.{decode_base64-encode_base64}
use knish_io_client_cpp.Storage.Payload.{SecretStorageMetadata, EncryptedSecretPayload}
use knish_io_client_cpp.Storage.Envelope.{
  default_iterations, derive_key, or_throw, seal, open_payload,
}

-- What a run of `seal` draws and computes: salt, vector, key, ciphertext and tag.
pub record Sealing (ssl : OpenSsl) (secret passphrase : Text) : Type 0 where
  pub salt : List ℕ
  pub iv : List ℕ
  pub key : List ℕ
  pub ciphertext : List ℕ
  pub tag : List ℕ
  pub salt-bytes : All IsByte salt
  pub iv-bytes : All IsByte iv
  pub length-iv : length iv ≡ 12
  pub derived : ssl.pkcs5_pbkdf2_hmac passphrase salt (pos 100000) ≡ some key
  pub encrypted : ssl.encrypt key iv secret ≡ some (ciphertext, tag)

iterations-fit : wrap 32 (pos default_iterations) ≡ pos 100000
unfolding wrap
iterations-fit = refl

module _ (ssl : OpenSsl) (aead : IsAead ssl) where
  derive_key-of :
      (passphrase : Text) (salt key : List ℕ)
      → ssl.pkcs5_pbkdf2_hmac passphrase salt (pos 100000) ≡ some key
      → derive_key ssl passphrase salt default_iterations ≡ ok key
  unfolding derive_key
  derive_key-of passphrase salt key e = rw (iterations-fit, e) refl

  abbrev pub sealed :
      (secret passphrase : Text)
      → Sealing ssl secret passphrase
      → SecretStorageMetadata
      → EncryptedSecretPayload
  sealed secret passphrase d metadata = record {
    version = 1;
    ciphertext = encode_base64 (d.ciphertext ++ d.tag);
    iv = encode_base64 d.iv;
    salt = encode_base64 d.salt;
    algorithm = codes "AES-GCM";
    iterations = default_iterations;
    metadata = metadata;
  }

  pub seal-run :
      (secret passphrase : Text) (d : Sealing ssl secret passphrase)
      (metadata : SecretStorageMetadata)
      → seal ssl (some d.salt) (some d.iv) secret passphrase metadata
        ≡ ok (sealed secret passphrase d metadata)
  unfolding seal
  seal-run secret passphrase d metadata =
      rw (derive_key-of passphrase d.salt d.key d.derived, d.encrypted) refl

  -- `open` in terms of what the fields decode to.
  open_payload-run :
      (payload : EncryptedSecretPayload) (passphrase : Text) (salt iv ciphertext tag key : List ℕ)
      → decode_base64 payload.salt ≡ ok salt
      → decode_base64 payload.iv ≡ ok iv
      → decode_base64 payload.ciphertext ≡ ok (ciphertext ++ tag)
      → length iv ≡ 12
      → length tag ≡ 16
      → derive_key ssl passphrase salt payload.iterations ≡ ok key
      → open_payload ssl payload passphrase
        ≡ or_throw decryption_failed (ssl.decrypt key iv ciphertext tag)
  unfolding open_payload
  open_payload-run payload passphrase salt iv ciphertext tag key es ei ec li lt derived =
      let long : ltb (length (ciphertext ++ tag)) 16 ≡ false =
        ground (arith, length-append ciphertext tag) in
      let split : length (ciphertext ++ tag) - 16 ≡ length ciphertext =
        omega (arith, length-append ciphertext tag) in
      rw (es, ei, li, ec)
        (rw (long, derived, split, take-append ciphertext tag, drop-append ciphertext tag) refl)

  -- `open` of a sealed payload with a passphrase that the library derives a key from.
  pub open_payload-sealed_with :
      (secret passphrase other : Text) (d : Sealing ssl secret passphrase)
      (metadata : SecretStorageMetadata) (key : List ℕ)
      → ssl.pkcs5_pbkdf2_hmac other d.salt (pos 100000) ≡ some key
      → open_payload ssl (sealed secret passphrase d metadata) other
        ≡ or_throw decryption_failed (ssl.decrypt key d.iv d.ciphertext d.tag)
  open_payload-sealed_with secret passphrase other d metadata key derived =
      let (back, length_tag, sealed_bytes, tag_bytes) =
        aead.decrypt-encrypt d.key d.iv secret d.ciphertext d.tag d.encrypted in
      open_payload-run (sealed secret passphrase d metadata) other d.salt d.iv d.ciphertext d.tag
        key (decode_base64-encode_base64 d.salt d.salt-bytes)
        (decode_base64-encode_base64 d.iv d.iv-bytes)
        (decode_base64-encode_base64 (d.ciphertext ++ d.tag)
          (All-append IsByte d.ciphertext d.tag sealed_bytes tag_bytes))
        d.length-iv length_tag (derive_key-of other d.salt key derived)

  pub open_payload-sealed :
      (secret passphrase : Text) (d : Sealing ssl secret passphrase)
      (metadata : SecretStorageMetadata)
      → open_payload ssl (sealed secret passphrase d metadata) passphrase ≡ ok secret
  open_payload-sealed secret passphrase d metadata =
      open_payload-sealed_with secret passphrase passphrase d metadata d.key d.derived
      ∙ ap (or_throw decryption_failed)
          (aead.decrypt-encrypt d.key d.iv secret d.ciphertext d.tag d.encrypted).0

  -- A secret sealed under a passphrase: `seal` returns, the payload keeps the metadata, and `open` with the same
  -- passphrase returns the secret. It takes that the random draws succeed with bytes, that the vector has 12
  -- bytes, and that the library derives the key, encrypts, and decrypts what it encrypted.
  pub open_payload-seal :
      (secret passphrase : Text) (d : Sealing ssl secret passphrase)
      (metadata : SecretStorageMetadata)
      → (payload : EncryptedSecretPayload) × (seal ssl
            (some d.salt)
            (some d.iv)
            secret
            passphrase
            metadata
          ≡ ok payload)
        × (open_payload ssl payload passphrase ≡ ok secret)
        × (payload.metadata ≡ metadata)
  open_payload-seal secret passphrase d metadata = (
    sealed secret passphrase d metadata,
    seal-run secret passphrase d metadata,
    open_payload-sealed secret passphrase d metadata,
    refl,
  )
