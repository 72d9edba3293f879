-- ===== src/Storage/Provider.antt =====
-- `AesGcmSecretStorageProvider` of src/storage/SecretStorageProvider.cpp, over a backend. The time and the
-- random bytes of a call are arguments.
pub mod Stored
pub mod Retrieved
pub mod Recovered
pub mod Deleted
use knish_io_client_cpp.Base.{
  ℕ, Bool, true, false, not, ◌&&◌, ◌||◌, List, [], ◌∷◌, ◌++◌, if◌then◌else◌, is_empty, ◌==◌, Text,
  codes, Result, ok, err, ◌>>=◌, ◌>>◌, require, secret_storage_exception, Option, none, some,
}
use knish_io_client_cpp.Base.Int.{ℤ}
use knish_io_client_cpp.Storage.Libraries.{JsonText, OpenSsl}
use knish_io_client_cpp.Storage.Payload.{
  SecretStorageMetadata, EncryptedSecretPayload, payload_from_string, payload_to_string,
}
use knish_io_client_cpp.Storage.Envelope.{or_throw, seal, open_payload}
use knish_io_client_cpp.Storage.Backend.{StorageBackend, is_some}

pub record StorageOptions : Type 0 where
  pub label : Option Text
  pub passphrase : Option Text
  pub recovery_passphrase : Option Text
  -- Read by none of the functions below.
  pub allow_unrecoverable : Bool

-- What `storeSecret` reads of the world: the time, and the bytes of up to four calls of `RAND_bytes`.
pub record Draws : Type 0 where
  pub now : ℤ
  pub salt : Option (List ℕ)
  pub iv : Option (List ℕ)
  pub recovery_salt : Option (List ℕ)
  pub recovery_iv : Option (List ℕ)

abbrev pub key_prefix : Text
key_prefix = codes "knishio:secret:"

abbrev pub recovery_key_prefix : Text
recovery_key_prefix = codes "knishio:recovery:"

abbrev pub metadata_of : Text → StorageOptions → ℤ → Text → SecretStorageMetadata
metadata_of bundle_hash options now provider_type = record {
  bundle_hash = bundle_hash;
  label = options.label;
  created_at = now;
  hardware_backed = false;
  provider_type = provider_type;
}

-- The passphrase of the options or else the default one; it must be there and not be empty.
unfoldable pub chosen_passphrase : Option Text → Option Text → Result Text
chosen_passphrase (some given) default =
    require (not (is_empty given)) secret_storage_exception >> ok given
chosen_passphrase none (some default) =
    require (not (is_empty default)) secret_storage_exception >> ok default
chosen_passphrase none none = err secret_storage_exception

-- The passphrase that a recovered secret is stored under.
unfoldable pub recovered_passphrase : Option Text → Option Text → Text → Option Text
recovered_passphrase (some given) default recovery = some given
recovered_passphrase none (some default) recovery = some default
recovered_passphrase none none recovery = some recovery

abbrev pub metadata_list : Result EncryptedSecretPayload → List SecretStorageMetadata
metadata_list (ok payload) = payload.metadata ∷ []
metadata_list (err thrown) = []

-- `key.rfind(prefix, 0) == 0`
unfoldable pub has_prefix : Text → Text → Bool
has_prefix [] key = true
has_prefix (p ∷ prefix) [] = false
has_prefix (p ∷ prefix) (c ∷ key) = p == c && has_prefix prefix key

-- A call that may throw, before the rest of a member function.
abbrev pub then_on : {A B S : Type 0} → S → Result A → (A → Result B × S) → Result B × S
then_on s (ok a) rest = rest a
then_on s (err e) rest = (err e, s)

-- The same of a call that changes the state.
abbrev pub then_after : {A B S : Type 0} → Result A × S → (A → S → Result B × S) → Result B × S
then_after (ok a, s) rest = rest a s
then_after (err e, s) rest = (err e, s)

module _ (js : JsonText) (ssl : OpenSsl) where
  unfoldable pub sealed_text :
      Option (List ℕ) → Option (List ℕ) → Text → Text → SecretStorageMetadata → Result Text
  sealed_text salt iv secret passphrase metadata =
      seal ssl salt iv secret passphrase metadata >>= payload_to_string js

  unfoldable pub unsealed : Text → Text → Result Text
  unsealed raw passphrase =
      payload_from_string js raw >>= λ payload. open_payload ssl payload passphrase

module _ (js : JsonText) (ssl : OpenSsl) (b : StorageBackend)
    (default_passphrase : Option Text) where
  -- The recovery payload, where the options have a recovery passphrase.
  unfoldable pub store_recovery :
      Option Text → Draws → Text → Text → StorageOptions → b.State → Result (Unit {0}) × b.State
  store_recovery none draws bundle_hash secret options s = (ok tt, s)
  store_recovery (some recovery) draws bundle_hash secret options s =
      then_on s
        (require (not (is_empty recovery)) secret_storage_exception
          >> sealed_text js ssl draws.recovery_salt draws.recovery_iv secret recovery
              (metadata_of bundle_hash options draws.now (codes "aes-gcm")))
        (λ text. b.set_item (recovery_key_prefix ++ bundle_hash) text s)

  unfoldable pub store_secret :
      Draws → Text → Text → StorageOptions → b.State → Result (Unit {0}) × b.State
  store_secret draws bundle_hash secret options s =
      then_on s
        (require (not (is_empty bundle_hash)) secret_storage_exception
          >> require (not (is_empty secret)) secret_storage_exception
          >> chosen_passphrase options.passphrase default_passphrase)
        (λ passphrase.
          then_on s
            (sealed_text js ssl draws.salt draws.iv secret passphrase
              (metadata_of bundle_hash options draws.now (codes "aes-gcm")))
            (λ text. then_after (b.set_item (key_prefix ++ bundle_hash) text s) (λ _ stored.
              store_recovery options.recovery_passphrase draws bundle_hash secret options stored)))

  unfoldable pub retrieve_raw : StorageOptions → Option Text → Result (Option Text)
  retrieve_raw options none = ok none
  retrieve_raw options (some raw) = do
    payload ← payload_from_string js raw
    passphrase ← chosen_passphrase options.passphrase default_passphrase
    secret ← open_payload ssl payload passphrase
    ok (some secret)

  unfoldable pub retrieve_secret : Text → StorageOptions → b.State → Result (Option Text)
  retrieve_secret bundle_hash options s =
      retrieve_raw options (b.get_item (key_prefix ++ bundle_hash) s)

  unfoldable pub delete_secret : Text → b.State → Result Bool × b.State
  delete_secret bundle_hash s =
      then_after (b.remove_item (key_prefix ++ bundle_hash) s) (λ removed_primary s1.
        then_after (b.remove_item (recovery_key_prefix ++ bundle_hash) s1)
          (λ removed_recovery s2. (ok (removed_primary || removed_recovery), s2)))

  unfoldable pub has_secret : Text → b.State → Bool
  has_secret bundle_hash s = is_some (b.get_item (key_prefix ++ bundle_hash) s)

  -- What `listSecrets` adds for a key; what does not parse is skipped.
  abbrev pub listed : Option Text → List SecretStorageMetadata
  listed none = []
  listed (some raw) = metadata_list (payload_from_string js raw)

  unfoldable pub list_keys : List Text → b.State → List SecretStorageMetadata
  list_keys [] s = []
  list_keys (key ∷ keys) s =
      let rest = list_keys keys s in
      if has_prefix key_prefix key && not (has_prefix recovery_key_prefix key)
      then listed (b.get_item key s) ++ rest
      else rest

  unfoldable pub list_secrets : b.State → List SecretStorageMetadata
  list_secrets s = list_keys (b.keys s) s

  unfoldable pub recover_secret :
      Draws → Text → Text → StorageOptions → b.State → Result (Unit {0}) × b.State
  recover_secret draws bundle_hash recovery options s =
      then_on s
        (require (not (is_empty bundle_hash)) secret_storage_exception
          >> require (not (is_empty recovery)) secret_storage_exception
          >> (or_throw secret_storage_exception (b.get_item (recovery_key_prefix ++ bundle_hash) s)
              >>= λ raw. unsealed js ssl raw recovery))
        (λ secret.
          store_secret draws bundle_hash secret
            (record options {
              passphrase = recovered_passphrase options.passphrase default_passphrase recovery;
              recovery_passphrase = some recovery;
            })
            s)

  -- `withSecret`, of what the callback does with the secret.
  unfoldable pub with_secret :
      Text → StorageOptions → (Text → Result (Unit {0})) → b.State → Result (Unit {0})
  with_secret bundle_hash options callback s = retrieve_secret bundle_hash options s >>= λ secret.
      or_throw secret_storage_exception secret >>= callback
