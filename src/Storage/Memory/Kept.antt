-- ===== src/Storage/Memory/Kept.antt =====
-- What `MemorySecretStorageProvider` keeps, and recovers.
use knish_io_client_cpp.Base.{
  ◌≡◌, ◌≢◌, ◌∙◌, refl, ap, false, not, inl, inr, Result-cases, is_empty, Text, codes, ◌>>◌, require,
  secret_storage_exception, Option, none, some,
}
use knish_io_client_cpp.Storage.Libraries.{JsonText, OpenSsl}
use knish_io_client_cpp.Storage.Backend.{store_find, store_set}
use knish_io_client_cpp.Storage.Backend.Map.{find-set, find-set_other}
use knish_io_client_cpp.Storage.Provider.{StorageOptions, Draws, metadata_of, sealed_text}
use knish_io_client_cpp.Storage.Memory.{
  Entry, MemorySecretStorageProvider, option_map, memory_retrieve_secret, memory_store_recovery,
  memory_store_secret,
}

module _ (js : JsonText) (ssl : OpenSsl) where
  store-recovery :
      (recovery : Option Text) (draws : Draws) (bundle_hash secret : Text)
      (options : StorageOptions) (p : MemorySecretStorageProvider)
      → (memory_store_recovery js ssl recovery draws bundle_hash secret options p).1.store ≡ p.store
  unfolding memory_store_recovery
  store-recovery none draws bundle_hash secret options p = refl
  store-recovery (some recovery) draws bundle_hash secret options p =
      elim (Result-cases (
        require (not (is_empty recovery)) secret_storage_exception
        >> sealed_text js ssl draws.recovery_salt draws.recovery_iv secret recovery
            (metadata_of bundle_hash options draws.now (codes "aes-gcm")))) [
              | inl (e, h) ↦ rw h refl
              | inr (t, h) ↦ rw h refl
            ]

  memory_store_secret-of :
      (draws : Draws) (bundle_hash secret : Text) (options : StorageOptions)
      (p : MemorySecretStorageProvider)
      → is_empty bundle_hash ≡ false
      → is_empty secret ≡ false
      → memory_store_secret js ssl draws bundle_hash secret options p
        ≡ memory_store_recovery js ssl options.recovery_passphrase draws bundle_hash secret options
            (record p {
              store =
                  store_set bundle_hash
                    (record {
                      secret = secret;
                      metadata = metadata_of bundle_hash options draws.now (codes "memory");
                    })
                    p.store;
            })
  unfolding memory_store_secret
  memory_store_secret-of draws bundle_hash secret options p hb hs = rw (hb, hs) refl

  -- For a bundle and a secret that are not empty, `storeSecret` keeps the secret whether or not it throws for the
  -- recovery passphrase: `retrieveSecret` returns it, and what it returns for another bundle stays.
  pub memory_retrieve_secret-store_secret :
      (draws : Draws) (bundle_hash secret other : Text) (options : StorageOptions)
      (p : MemorySecretStorageProvider)
      → is_empty bundle_hash ≡ false
      → is_empty secret ≡ false
      → other ≢ bundle_hash
      → (memory_retrieve_secret bundle_hash
            (memory_store_secret js ssl draws bundle_hash secret options p).1
          ≡ some secret)
        × (memory_retrieve_secret other
              (memory_store_secret js ssl draws bundle_hash secret options p).1
            ≡ memory_retrieve_secret other p)
  unfolding memory_retrieve_secret
  memory_retrieve_secret-store_secret draws bundle_hash secret other options p hb hs ne =
      let held =
        ap (λ r. r.1.store) (memory_store_secret-of draws bundle_hash secret options p hb hs)
        ∙ store-recovery options.recovery_passphrase draws bundle_hash secret options _ in
      (
        ap (λ m. option_map (λ (entry : Entry). entry.secret) (store_find bundle_hash m)) held
            ∙ ap (option_map (λ (entry : Entry). entry.secret)) (find-set bundle_hash _ p.store),
        ap (λ m. option_map (λ (entry : Entry). entry.secret) (store_find other m)) held
            ∙ ap (option_map (λ (entry : Entry). entry.secret))
                (find-set_other bundle_hash other _ p.store ne),
      )
