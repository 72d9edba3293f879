-- ===== src/Storage/Memory.antt =====
-- `MemorySecretStorageProvider` of src/storage/SecretStorageProvider.cpp: two maps.
pub mod Kept
use knish_io_client_cpp.Base.{
  ℕ, Bool, true, false, not, ◌||◌, List, [], map, is_empty, Text, codes, Result, ok, err, ◌>>=◌,
  ◌>>◌, require, secret_storage_exception, Option, none, some,
}
use knish_io_client_cpp.Storage.Libraries.{JsonText, OpenSsl}
use knish_io_client_cpp.Storage.Payload.{SecretStorageMetadata}
use knish_io_client_cpp.Storage.Envelope.{or_throw}
use knish_io_client_cpp.Storage.Backend.{Store, store_find, store_set, store_erase, is_some}
use knish_io_client_cpp.Storage.Provider.{
  StorageOptions, Draws, metadata_of, sealed_text, unsealed, then_on,
}

pub record Entry : Type 0 where
  pub secret : Text
  pub metadata : SecretStorageMetadata

pub record MemorySecretStorageProvider : Type 0 where
  pub store : Store Entry
  pub recovery_store : Store Text

abbrev pub option_map : {A B : Type 0} → (A → B) → Option A → Option B
option_map f none = none
option_map f (some a) = some (f a)

unfoldable pub memory_retrieve_secret : Text → MemorySecretStorageProvider → Option Text
memory_retrieve_secret bundle_hash p =
    option_map (λ entry. entry.secret) (store_find bundle_hash p.store)

unfoldable pub memory_has_secret : Text → MemorySecretStorageProvider → Bool
memory_has_secret bundle_hash p = is_some (store_find bundle_hash p.store)

unfoldable pub memory_delete_secret :
    Text → MemorySecretStorageProvider → Bool × MemorySecretStorageProvider
memory_delete_secret bundle_hash p = (
  is_some (store_find bundle_hash p.store) || is_some (store_find bundle_hash p.recovery_store),
  record {
    store = store_erase bundle_hash p.store;
    recovery_store = store_erase bundle_hash p.recovery_store;
  },
)

unfoldable pub memory_clear : MemorySecretStorageProvider → MemorySecretStorageProvider
memory_clear p = record { store = []; recovery_store = [] }

unfoldable pub memory_list_secrets : MemorySecretStorageProvider → List SecretStorageMetadata
memory_list_secrets p = map (λ kv. kv.1.metadata) p.store

module _ (js : JsonText) (ssl : OpenSsl) where
  unfoldable pub memory_store_recovery :
      Option Text
      → Draws
      → Text
      → Text
      → StorageOptions
      → MemorySecretStorageProvider
      → Result (Unit {0}) × MemorySecretStorageProvider
  memory_store_recovery none draws bundle_hash secret options p = (ok tt, p)
  memory_store_recovery (some recovery) draws bundle_hash secret options p =
      then_on p
        (require (not (is_empty recovery)) secret_storage_exception
          >> sealed_text js ssl draws.recovery_salt draws.recovery_iv secret recovery
              (metadata_of bundle_hash options draws.now (codes "aes-gcm")))
        (λ text. (ok tt, record p { recovery_store = store_set bundle_hash text p.recovery_store }))

  unfoldable pub memory_store_secret :
      Draws
      → Text
      → Text
      → StorageOptions
      → MemorySecretStorageProvider
      → Result (Unit {0}) × MemorySecretStorageProvider
  memory_store_secret draws bundle_hash secret options p =
      then_on p
        (require (not (is_empty bundle_hash)) secret_storage_exception
          >> require (not (is_empty secret)) secret_storage_exception)
        (λ _.
          let entry : Entry = record {
            secret = secret;
            metadata = metadata_of bundle_hash options draws.now (codes "memory");
          } in
          memory_store_recovery options.recovery_passphrase draws bundle_hash secret options
            (record p { store = store_set bundle_hash entry p.store }))

  unfoldable pub memory_recover_secret :
      Draws
      → Text
      → Text
      → StorageOptions
      → MemorySecretStorageProvider
      → Result (Unit {0}) × MemorySecretStorageProvider
  memory_recover_secret draws bundle_hash recovery options p =
      then_on p
        (require (not (is_empty bundle_hash)) secret_storage_exception
          >> require (not (is_empty recovery)) secret_storage_exception
          >> (or_throw secret_storage_exception (store_find bundle_hash p.recovery_store) >>= λ raw.
              unsealed js ssl raw recovery))
        (λ secret.
          memory_store_secret draws bundle_hash secret
            (record options { recovery_passphrase = some recovery }) p)
