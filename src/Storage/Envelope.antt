-- ===== src/Storage/Envelope.antt =====
-- `deriveKey`, `seal` and `open` of src/storage/SecretEnvelope.cpp. The bytes that `RAND_bytes` writes are
-- arguments, `none` where it fails. Wiping memory has no effect here.
pub mod RoundTrip
use knish_io_client_cpp.Base.{
  ℕ, ◌-◌, Bool, true, false, not, List, ◌++◌, ◌==◌, ltb, length, take, drop, Text, codes, Result,
  ok, err, ◌>>=◌, ◌>>◌, require, rethrow_as, secret_storage_exception, decryption_failed, Exception,
  Option, none, some,
}
use knish_io_client_cpp.Base.Int.{ℤ, pos}
use knish_io_client_cpp.Base.Integers.{wrap}
use knish_io_client_cpp.Storage.Libraries.{OpenSsl}
use knish_io_client_cpp.Storage.Base64.{encode_base64, decode_base64}
use knish_io_client_cpp.Storage.Payload.{SecretStorageMetadata, EncryptedSecretPayload}

abbrev pub default_iterations : ℕ
default_iterations = 100000

abbrev pub iv_length : ℕ
iv_length = 12

abbrev pub tag_length : ℕ
tag_length = 16

-- A call that reports a failure, and the exception thrown then.
abbrev pub or_throw : {A : Type 0} → Exception → Option A → Result A
or_throw thrown none = err thrown
or_throw thrown (some a) = ok a

module _ (ssl : OpenSsl) where
  unfoldable pub derive_key : Text → List ℕ → ℕ → Result (List ℕ)
  derive_key passphrase salt iterations =
      or_throw secret_storage_exception
        (ssl.pkcs5_pbkdf2_hmac passphrase salt (wrap 32 (pos iterations)))

  unfoldable pub seal :
      Option (List ℕ)
      → Option (List ℕ)
      → Text
      → Text
      → SecretStorageMetadata
      → Result EncryptedSecretPayload
  seal drawn_salt drawn_iv secret passphrase metadata = do
    salt ← or_throw secret_storage_exception drawn_salt
    iv ← or_throw secret_storage_exception drawn_iv
    key ← derive_key passphrase salt default_iterations
    (ciphertext, tag) ← or_throw secret_storage_exception (ssl.encrypt key iv secret)
    ok (record {
      version = 1;
      ciphertext = encode_base64 (ciphertext ++ tag);
      iv = encode_base64 iv;
      salt = encode_base64 salt;
      algorithm = codes "AES-GCM";
      iterations = default_iterations;
      metadata = metadata;
    })

  unfoldable pub open_payload : EncryptedSecretPayload → Text → Result Text
  open_payload payload passphrase = do
    salt ← rethrow_as decryption_failed (decode_base64 payload.salt)
    iv ← rethrow_as decryption_failed (decode_base64 payload.iv)
    require (length iv == iv_length) decryption_failed
    ciphertext_with_tag ← rethrow_as decryption_failed (decode_base64 payload.ciphertext)
    require (not (ltb (length ciphertext_with_tag) tag_length)) decryption_failed
    let ciphertext_len = length ciphertext_with_tag - tag_length
    key ← derive_key passphrase salt payload.iterations
    or_throw decryption_failed (
        ssl.decrypt key iv (take ciphertext_len ciphertext_with_tag)
          (drop ciphertext_len ciphertext_with_tag))
