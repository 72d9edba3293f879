-- ===== src/Storage/Provider/Stored.antt =====
-- What `AesGcmSecretStorageProvider::storeSecret` stores, `retrieveSecret` returns.
use knish_io_client_cpp.Base.{
  ◌^◌, ◌<◌, ◌≡◌, ◌≢◌, ◌∙◌, refl, ap, true, false, not, [], ◌++◌, is_empty, get_or, All-append,
  IsByte, Text, codes, ok, err, ◌>>=◌, ◌>>◌, require, arith, inl, inr, Result-cases, Option, none,
  some, secret_storage_exception,
}
use knish_io_client_cpp.Base.Int.{ℤ, magnitude}
use knish_io_client_cpp.Json.{is_ascii}
use knish_io_client_cpp.Storage.Libraries.{JsonText, IsExactText, OpenSsl, IsAead}
use knish_io_client_cpp.Storage.Base64.RoundTrip.{encode_base64-ascii}
use knish_io_client_cpp.Storage.Payload.{
  SecretStorageMetadata, EncryptedSecretPayload, payload_from_string,
}
use knish_io_client_cpp.Storage.Payload.RoundTrip.{
  IsLabel, IsAsciiMetadata, IsAsciiPayload, payload_from_string-to_string,
}
use knish_io_client_cpp.Storage.Envelope.{open_payload}
use knish_io_client_cpp.Storage.Envelope.RoundTrip.{Sealing, sealed, seal-run, open_payload-sealed}
use knish_io_client_cpp.Storage.Backend.{StorageBackend, IsStore}
use knish_io_client_cpp.Storage.Provider.{
  StorageOptions, Draws, key_prefix, recovery_key_prefix, metadata_of, chosen_passphrase,
  sealed_text, store_recovery, store_secret, retrieve_raw, retrieve_secret,
}

pub prefixes-differ : (a b : Text) → key_prefix ++ a ≢ recovery_key_prefix ++ b
prefixes-differ a b e = absurd (omega (arith, ap (λ (t : Text). get_or t 8 0) e))

-- The options and the time make metadata of ASCII texts.
pub record IsAsciiCall (bundle_hash : Text) (options : StorageOptions) (now : ℤ) : Type 0 where
  pub ascii_hash : is_ascii bundle_hash ≡ true
  pub ascii_label : IsLabel options.label
  pub bounded_now : magnitude now < 2 ^ 63

pub metadata_of-IsAsciiMetadata :
    (bundle_hash : Text) (options : StorageOptions) (now : ℤ)
    → IsAsciiCall bundle_hash options now
    → IsAsciiMetadata (metadata_of bundle_hash options now (codes "aes-gcm"))
metadata_of-IsAsciiMetadata bundle_hash options now h = record {
  ascii-bundle_hash = h.ascii_hash;
  ascii-label = h.ascii_label;
  ascii-provider_type = refl;
  bounded-created_at = h.bounded_now;
}

module _ (js : JsonText) (exact : IsExactText js) (ssl : OpenSsl) (aead : IsAead ssl) where
  sealed-IsAsciiPayload :
      (secret passphrase : Text) (d : Sealing ssl secret passphrase)
      (metadata : SecretStorageMetadata)
      → IsAsciiMetadata metadata
      → IsAsciiPayload (sealed ssl aead secret passphrase d metadata)
  sealed-IsAsciiPayload secret passphrase d metadata m =
      let (_, _, sealed_bytes, tag_bytes) =
        aead.decrypt-encrypt d.key d.iv secret d.ciphertext d.tag d.encrypted in
      record {
        bounded-version = omega arith;
        ascii-ciphertext =
            encode_base64-ascii (d.ciphertext ++ d.tag)
              (All-append IsByte d.ciphertext d.tag sealed_bytes tag_bytes);
        ascii-iv = encode_base64-ascii d.iv d.iv-bytes;
        ascii-salt = encode_base64-ascii d.salt d.salt-bytes;
        ascii-algorithm = refl;
        bounded-iterations = omega arith;
        ascii-metadata = m;
      }

  -- The text of a sealed secret, and what is read back from it.
  pub sealed_text-run :
      (secret passphrase : Text) (d : Sealing ssl secret passphrase)
      (metadata : SecretStorageMetadata)
      → IsAsciiMetadata metadata
      → (t : Text) × (p : EncryptedSecretPayload) × (sealed_text js ssl
            (some d.salt)
            (some d.iv)
            secret
            passphrase
            metadata
          ≡ ok t)
        × (payload_from_string js t ≡ ok p)
        × (open_payload ssl p passphrase ≡ ok secret)
        × (p ≡ sealed ssl aead secret passphrase d metadata)
  unfolding sealed_text
  sealed_text-run secret passphrase d metadata m =
      let whole = sealed ssl aead secret passphrase d metadata in
      let (t, written, back) =
        payload_from_string-to_string js exact whole
          (sealed-IsAsciiPayload secret passphrase d metadata m) in
      (
        t,
        whole,
        rw (seal-run ssl aead secret passphrase d metadata, written) refl,
        back,
        open_payload-sealed ssl aead secret passphrase d metadata,
        refl,
      )

-- The random draws of a call are those of two sealings.
abbrev pub DrawsOf :
    (ssl : OpenSsl) (draws : Draws) (secret passphrase recovery : Text)
    → Sealing ssl secret passphrase
    → Sealing ssl secret recovery
    → Type 0
DrawsOf ssl draws secret passphrase recovery d r =
    (draws.salt ≡ some d.salt)
    × (draws.iv ≡ some d.iv)
    × (draws.recovery_salt ≡ some r.salt)
    × (draws.recovery_iv ≡ some r.iv)

-- A backend that takes every write.
abbrev pub AcceptsWrites : StorageBackend → Type 0
AcceptsWrites b = (key value : Text) (s : b.State) → (b.set_item key value s).0 ≡ ok tt

module _ (js : JsonText) (ssl : OpenSsl) (b : StorageBackend)
    (default_passphrase : Option Text) where
  -- `retrieveSecret` where there is a payload, up to what `open` does.
  pub retrieve_secret-of :
      (bundle_hash passphrase raw : Text) (payload : EncryptedSecretPayload)
      (options : StorageOptions) (s : b.State)
      → b.get_item (key_prefix ++ bundle_hash) s ≡ some raw
      → payload_from_string js raw ≡ ok payload
      → chosen_passphrase options.passphrase default_passphrase ≡ ok passphrase
      → retrieve_secret js ssl b default_passphrase bundle_hash options s
        ≡ (open_payload ssl payload passphrase >>= λ secret. ok (some secret))
  unfolding retrieve_secret retrieve_raw
  retrieve_secret-of bundle_hash passphrase raw payload options s found parsed chosen =
      rw (found, parsed, chosen) refl

  -- `storeSecret` up to the recovery payload.
  store_secret-of :
      (draws : Draws) (bundle_hash secret passphrase text : Text) (options : StorageOptions)
      (s : b.State)
      → is_empty bundle_hash ≡ false
      → is_empty secret ≡ false
      → chosen_passphrase options.passphrase default_passphrase ≡ ok passphrase
      → sealed_text js ssl draws.salt draws.iv secret passphrase
          (metadata_of bundle_hash options draws.now (codes "aes-gcm"))
        ≡ ok text
      → (b.set_item (key_prefix ++ bundle_hash) text s).0 ≡ ok tt
      → store_secret js ssl b default_passphrase draws bundle_hash secret options s
        ≡ store_recovery js ssl b default_passphrase options.recovery_passphrase draws bundle_hash
            secret options
            (b.set_item (key_prefix ++ bundle_hash) text s).1
  unfolding store_secret
  store_secret-of draws bundle_hash secret passphrase text options s hb hs chosen sealed wrote =
      rw (hb, hs, chosen, sealed, wrote) refl

  -- Whatever becomes of the recovery payload, it leaves the other items.
  store_recovery-other :
      IsStore b
      → (recovery : Option Text) (draws : Draws) (bundle_hash secret other : Text)
        (options : StorageOptions) (s : b.State)
      → b.get_item
          (key_prefix ++ other)
          (store_recovery js ssl b default_passphrase recovery draws bundle_hash secret options s).1
        ≡ b.get_item (key_prefix ++ other) s
  unfolding store_recovery
  store_recovery-other store none draws bundle_hash secret other options s = refl
  store_recovery-other store (some recovery) draws bundle_hash secret other options s =
      elim (Result-cases (
        require (not (is_empty recovery)) secret_storage_exception
        >> sealed_text js ssl draws.recovery_salt draws.recovery_iv secret recovery
            (metadata_of bundle_hash options draws.now (codes "aes-gcm")))) [
              | inl (e, h) ↦ rw h refl
              | inr (t, h) ↦ rw h (
                  store.get_item-set_other (recovery_key_prefix ++ bundle_hash)
                    (key_prefix ++ other) t s (prefixes-differ other bundle_hash))
            ]

  pub store_recovery-empty :
      (draws : Draws) (bundle_hash secret : Text) (options : StorageOptions) (s : b.State)
      → store_recovery js ssl b default_passphrase (some []) draws bundle_hash secret options s
        ≡ (err secret_storage_exception, s)
  unfolding store_recovery
  store_recovery-empty draws bundle_hash secret options s = refl

  pub store_recovery-some :
      (recovery text : Text) (draws : Draws) (bundle_hash secret : Text) (options : StorageOptions)
      (s : b.State)
      → is_empty recovery ≡ false
      → sealed_text js ssl draws.recovery_salt draws.recovery_iv secret recovery
          (metadata_of bundle_hash options draws.now (codes "aes-gcm"))
        ≡ ok text
      → store_recovery js ssl b default_passphrase
          (some recovery)
          draws
          bundle_hash
          secret
          options
          s
        ≡ b.set_item (recovery_key_prefix ++ bundle_hash) text s
  unfolding store_recovery
  store_recovery-some recovery text draws bundle_hash secret options s some_text sealed =
      rw (some_text, sealed) refl

  pub store_recovery-none :
      (draws : Draws) (bundle_hash secret : Text) (options : StorageOptions) (s : b.State)
      → store_recovery js ssl b default_passphrase none draws bundle_hash secret options s
        ≡ (ok tt, s)
  unfolding store_recovery
  store_recovery-none draws bundle_hash secret options s = refl

module _ (js : JsonText) (exact : IsExactText js) (ssl : OpenSsl) (aead : IsAead ssl)
    (b : StorageBackend) (store : IsStore b) (writes : AcceptsWrites b)
    (default_passphrase : Option Text) where
  -- What `storeSecret` leaves: the recovery step on a state where the secret's payload stands.
  pub stored :
      (draws : Draws) (bundle_hash secret passphrase : Text) (d : Sealing ssl secret passphrase)
      (options : StorageOptions) (s : b.State)
      → is_empty bundle_hash ≡ false
      → is_empty secret ≡ false
      → chosen_passphrase options.passphrase default_passphrase ≡ ok passphrase
      → IsAsciiCall bundle_hash options draws.now
      → draws.salt ≡ some d.salt
      → draws.iv ≡ some d.iv
      → (t : Text) × (p : EncryptedSecretPayload) × (payload_from_string js t ≡ ok p)
        × (open_payload ssl p passphrase ≡ ok secret)
        × (p
            ≡ sealed ssl aead secret passphrase d
                (metadata_of bundle_hash options draws.now (codes "aes-gcm")))
        × (store_secret js ssl b default_passphrase draws bundle_hash secret options s
            ≡ store_recovery js ssl b default_passphrase options.recovery_passphrase draws
                bundle_hash secret options
                (b.set_item (key_prefix ++ bundle_hash) t s).1)
        × (b.get_item
              (key_prefix ++ bundle_hash)
              (store_secret js ssl b default_passphrase draws bundle_hash secret options s).1
            ≡ some t)
  stored draws bundle_hash secret passphrase d options s hb hs chosen ascii salted vector =
      let metadata = metadata_of bundle_hash options draws.now (codes "aes-gcm") in
      let (t, p, text, parsed, opened, kept) =
        sealed_text-run js exact ssl aead secret passphrase d metadata
          (metadata_of-IsAsciiMetadata bundle_hash options draws.now ascii) in
      let text' : sealed_text js ssl draws.salt draws.iv secret passphrase metadata ≡ ok t =
        rw (salted, vector) text in
      let run =
        store_secret-of js ssl b default_passphrase draws bundle_hash secret passphrase t options s
          hb hs chosen text' (writes (key_prefix ++ bundle_hash) t s) in
      (
        t,
        p,
        parsed,
        opened,
        kept,
        run,
        ap (λ r. b.get_item (key_prefix ++ bundle_hash) r.1) run
            ∙ store_recovery-other js ssl b default_passphrase store options.recovery_passphrase
                draws bundle_hash secret bundle_hash options _
            ∙ store.get_item-set_item (key_prefix ++ bundle_hash) t s
                (writes (key_prefix ++ bundle_hash) t s),
      )

  pub retrieved :
      (draws : Draws) (bundle_hash secret passphrase : Text) (d : Sealing ssl secret passphrase)
      (options later : StorageOptions) (s : b.State)
      → is_empty bundle_hash ≡ false
      → is_empty secret ≡ false
      → chosen_passphrase options.passphrase default_passphrase ≡ ok passphrase
      → chosen_passphrase later.passphrase default_passphrase ≡ ok passphrase
      → IsAsciiCall bundle_hash options draws.now
      → draws.salt ≡ some d.salt
      → draws.iv ≡ some d.iv
      → retrieve_secret js ssl b default_passphrase bundle_hash later
          (store_secret js ssl b default_passphrase draws bundle_hash secret options s).1
        ≡ ok (some secret)
  retrieved draws bundle_hash secret passphrase d options later s hb hs chosen again ascii salted
        vector =
      let (t, p, parsed, opened, kept, run, found) =
        stored draws bundle_hash secret passphrase d options s hb hs chosen ascii salted vector in
      retrieve_secret-of js ssl b default_passphrase bundle_hash passphrase t p later _ found parsed
        again
      ∙ ap (λ r. r >>= λ secret. ok (some secret)) opened
