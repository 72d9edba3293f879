-- ===== src/Storage/Provider/Retrieved.antt =====
-- What `AesGcmSecretStorageProvider::storeSecret` stores, `retrieveSecret` returns.
use knish_io_client_cpp.Base.{
  ℕ, ◌≡◌, ◌∙◌, sym, ap, false, List, [], ◌++◌, is_empty, Text, codes, ok, err, ◌>>=◌, Option, none,
  some, secret_storage_exception, decryption_failed,
}
use knish_io_client_cpp.Base.Int.{pos}
use knish_io_client_cpp.Storage.Libraries.{JsonText, IsExactText, OpenSsl, IsAead}
use knish_io_client_cpp.Storage.Envelope.{or_throw, open_payload}
use knish_io_client_cpp.Storage.Envelope.RoundTrip.{Sealing, open_payload-sealed_with}
use knish_io_client_cpp.Storage.Backend.{StorageBackend, IsStore}
use knish_io_client_cpp.Storage.Provider.{
  StorageOptions, Draws, key_prefix, metadata_of, chosen_passphrase, store_recovery, store_secret,
  retrieve_secret,
}
use knish_io_client_cpp.Storage.Provider.Stored.{
  IsAsciiCall, AcceptsWrites, retrieve_secret-of, store_recovery-empty, store_recovery-none, stored,
  retrieved,
}

module _ (js : JsonText) (exact : IsExactText js) (ssl : OpenSsl) (aead : IsAead ssl)
    (b : StorageBackend) (store : IsStore b) (writes : AcceptsWrites b)
    (default_passphrase : Option Text) where
  -- A secret stored without a recovery passphrase is retrieved with the same passphrase, given or by default:
  -- `storeSecret` throws nothing, and `retrieveSecret` in the state that it leaves returns the secret. It takes
  -- that the bundle's hash is ASCII text and not empty, that the secret and the passphrase are not empty, that the
  -- label is absent or ASCII text that is not empty, and that the backend is a store that takes every write.
  pub retrieve_secret-store_secret :
      (draws : Draws) (bundle_hash secret passphrase : Text) (d : Sealing ssl secret passphrase)
      (options later : StorageOptions) (s : b.State)
      → is_empty bundle_hash ≡ false
      → is_empty secret ≡ false
      → chosen_passphrase options.passphrase default_passphrase ≡ ok passphrase
      → chosen_passphrase later.passphrase default_passphrase ≡ ok passphrase
      → IsAsciiCall bundle_hash options draws.now
      → draws.salt ≡ some d.salt
      → draws.iv ≡ some d.iv
      → options.recovery_passphrase ≡ none
      → (after : b.State) × (store_secret js ssl b default_passphrase draws bundle_hash secret
            options s
          ≡ (ok tt, after))
        × (retrieve_secret js ssl b default_passphrase bundle_hash later after ≡ ok (some secret))
  retrieve_secret-store_secret draws bundle_hash secret passphrase d options later s hb hs chosen
        again ascii salted vector alone =
      let (t, p, parsed, opened, kept, run, found) =
        stored js exact ssl aead b store writes default_passphrase draws bundle_hash secret
          passphrase d options s hb hs chosen ascii salted vector in
      let whole =
        run
        ∙ ap
            (λ r.
              store_recovery js ssl b default_passphrase r draws bundle_hash secret options
                (b.set_item (key_prefix ++ bundle_hash) t s).1)
            alone
        ∙ store_recovery-none js ssl b default_passphrase draws bundle_hash secret options
            (b.set_item (key_prefix ++ bundle_hash) t s).1 in
      (
        _,
        whole,
        ap (λ r. retrieve_secret js ssl b default_passphrase bundle_hash later r.1) (sym whole)
            ∙ retrieved js exact ssl aead b store writes default_passphrase draws bundle_hash secret
                passphrase d options later s hb hs chosen again ascii salted vector,
      )

  -- The same call with a recovery passphrase that is empty text: `storeSecret` throws, but the secret is stored,
  -- and `retrieveSecret` returns it.
  pub retrieve_secret-refused :
      (draws : Draws) (bundle_hash secret passphrase : Text) (d : Sealing ssl secret passphrase)
      (options later : StorageOptions) (s : b.State)
      → is_empty bundle_hash ≡ false
      → is_empty secret ≡ false
      → chosen_passphrase options.passphrase default_passphrase ≡ ok passphrase
      → chosen_passphrase later.passphrase default_passphrase ≡ ok passphrase
      → IsAsciiCall bundle_hash options draws.now
      → draws.salt ≡ some d.salt
      → draws.iv ≡ some d.iv
      → options.recovery_passphrase ≡ some []
      → (after : b.State) × (store_secret js ssl b default_passphrase draws bundle_hash secret
            options s
          ≡ (err secret_storage_exception, after))
        × (retrieve_secret js ssl b default_passphrase bundle_hash later after ≡ ok (some secret))
  retrieve_secret-refused draws bundle_hash secret passphrase d options later s hb hs chosen again
        ascii salted vector refused =
      let (t, p, parsed, opened, kept, run, found) =
        stored js exact ssl aead b store writes default_passphrase draws bundle_hash secret
          passphrase d options s hb hs chosen ascii salted vector in
      let whole =
        run
        ∙ ap
            (λ r.
              store_recovery js ssl b default_passphrase r draws bundle_hash secret options
                (b.set_item (key_prefix ++ bundle_hash) t s).1)
            refused
        ∙ store_recovery-empty js ssl b default_passphrase draws bundle_hash secret options
            (b.set_item (key_prefix ++ bundle_hash) t s).1 in
      (
        _,
        whole,
        ap (λ r. retrieve_secret js ssl b default_passphrase bundle_hash later r.1) (sym whole)
            ∙ retrieved js exact ssl aead b store writes default_passphrase draws bundle_hash secret
                passphrase d options later s hb hs chosen again ascii salted vector,
      )

  -- The same call, with any recovery passphrase. With another passphrase, from which the library derives a key
  -- that it refuses the ciphertext with, `retrieveSecret` throws the error of a failed decryption.
  pub retrieve_secret-rejected :
      (draws : Draws) (bundle_hash secret passphrase other : Text)
      (d : Sealing ssl secret passphrase) (options later : StorageOptions) (key : List ℕ)
      (s : b.State)
      → is_empty bundle_hash ≡ false
      → is_empty secret ≡ false
      → chosen_passphrase options.passphrase default_passphrase ≡ ok passphrase
      → chosen_passphrase later.passphrase default_passphrase ≡ ok other
      → IsAsciiCall bundle_hash options draws.now
      → draws.salt ≡ some d.salt
      → draws.iv ≡ some d.iv
      → ssl.pkcs5_pbkdf2_hmac other d.salt (pos 100000) ≡ some key
      → ssl.decrypt key d.iv d.ciphertext d.tag ≡ none
      → retrieve_secret js ssl b default_passphrase bundle_hash later
          (store_secret js ssl b default_passphrase draws bundle_hash secret options s).1
        ≡ err decryption_failed
  retrieve_secret-rejected draws bundle_hash secret passphrase other d options later key s hb hs
        chosen again ascii salted vector derived refused =
      let metadata = metadata_of bundle_hash options draws.now (codes "aes-gcm") in
      let (t, p, parsed, opened, whole, run, found) =
        stored js exact ssl aead b store writes default_passphrase draws bundle_hash secret
          passphrase d options s hb hs chosen ascii salted vector in
      retrieve_secret-of js ssl b default_passphrase bundle_hash other t p later _ found parsed
        again
      ∙ ap (λ r. r >>= λ secret. ok (some secret))
          (ap (λ payload. open_payload ssl payload other) whole
            ∙ open_payload-sealed_with ssl aead secret passphrase other d metadata key derived
            ∙ ap (or_throw decryption_failed) refused)
