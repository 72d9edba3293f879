-- ===== src/Storage/Payload.antt =====
-- `SecretStorageMetadata` and `EncryptedSecretPayload` of src/storage/SecretEnvelope.h, as JSON.
pub mod RoundTrip
use knish_io_client_cpp.Base.{
  ℕ, Bool, true, false, not, ◌||◌, if◌then◌else◌, is_empty, Text, codes, Result, ok, err, ◌>>=◌,
  ◌>>◌, require, secret_storage_exception, decryption_failed, Option, none, some,
}
use knish_io_client_cpp.Base.Int.{ℤ, pos}
use knish_io_client_cpp.Json.{Json, Fields, put, find}
use knish_io_client_cpp.Storage.Libraries.{JsonText}

pub record SecretStorageMetadata : Type 0 where
  pub bundle_hash : Text
  pub label : Option Text
  pub created_at : ℤ
  pub hardware_backed : Bool
  pub provider_type : Text

pub record EncryptedSecretPayload : Type 0 where
  pub version : ℕ
  pub ciphertext : Text
  pub iv : Text
  pub salt : Text
  pub algorithm : Text
  pub iterations : ℕ
  pub metadata : SecretStorageMetadata

-- The label is left out when it is absent or empty.
unfoldable pub put_label : Option Text → Fields → Fields
put_label none j = j
put_label (some label) j = if is_empty label then j else put (codes "label") (Json.text label) j

unfoldable pub metadata_to_json : SecretStorageMetadata → Json
unfolding put
metadata_to_json m = Json.object (
    put_label m.label (
      put (codes "providerType") (Json.text m.provider_type) (
        put (codes "hardwareBacked") (Json.boolean m.hardware_backed) (
          put (codes "createdAt") (Json.number m.created_at)
            (put (codes "bundleHash") (Json.text m.bundle_hash) Fields.end)))))

-- `j[j.contains(a) ? a : b]` where there is one.
abbrev pub either_key : Text → Text → Fields → Option Json
either_key camel snake fields = elim (find camel fields) [
  | some j ↦ some j
  | none ↦ find snake fields
]

module _ (js : JsonText) where
  abbrev pub required : {A : Type 0} → (Json → Result A) → Option Json → Result A
  required get none = err secret_storage_exception
  required get (some j) = get j

  abbrev pub defaulted : {A : Type 0} → (Json → Result A) → A → Option Json → Result A
  defaulted get default none = ok default
  defaulted get default (some j) = get j

  -- `null` counts as absent.
  abbrev pub read_label : Option Json → Result (Option Text)
  read_label none = ok none
  read_label (some Json.null) = ok none
  read_label (some j) = js.get_string j >>= λ label. ok (some label)

  unfoldable pub metadata_from_fields : Fields → Result SecretStorageMetadata
  metadata_from_fields fields = do
    bundle_hash ←
        required js.get_string (either_key (codes "bundleHash") (codes "bundle_hash") fields)
    created_at ← required js.get_int64 (either_key (codes "createdAt") (codes "created_at") fields)
    hardware_backed ←
        defaulted js.get_boolean false
          (either_key (codes "hardwareBacked") (codes "hardware_backed") fields)
    provider_type ←
        required js.get_string (either_key (codes "providerType") (codes "provider_type") fields)
    label ← read_label (find (codes "label") fields)
    ok (record {
      bundle_hash = bundle_hash;
      label = label;
      created_at = created_at;
      hardware_backed = hardware_backed;
      provider_type = provider_type;
    })

  unfoldable pub metadata_from_json : Json → Result SecretStorageMetadata
  metadata_from_json (Json.object fields) = metadata_from_fields fields
  metadata_from_json j = err secret_storage_exception

unfoldable pub payload_to_json : EncryptedSecretPayload → Json
unfolding put
payload_to_json p = Json.object (
    put (codes "metadata") (metadata_to_json p.metadata) (
      put (codes "iterations") (Json.number (pos p.iterations)) (
        put (codes "algorithm") (Json.text p.algorithm) (
          put (codes "salt") (Json.text p.salt) (
            put (codes "iv") (Json.text p.iv) (
              put (codes "ciphertext") (Json.text p.ciphertext)
                (put (codes "version") (Json.number (pos p.version)) Fields.end)))))))

module _ (js : JsonText) where
  -- `j[key]` of a key that `contains` was asked for.
  abbrev pub at_key : {A : Type 0} → (Json → Result A) → Text → Fields → Result A
  at_key get key fields = required js get (find key fields)

  abbrev pub or_missing : Text → Fields → Bool
  or_missing key fields = elim (find key fields) [ none ↦ true | some j ↦ false ]

  abbrev pub missing_fields : Fields → Bool
  missing_fields fields =
      or_missing (codes "version") fields
      || or_missing (codes "ciphertext") fields
      || or_missing (codes "iv") fields
      || or_missing (codes "salt") fields
      || or_missing (codes "metadata") fields

  unfoldable pub payload_from_fields : Fields → Result EncryptedSecretPayload
  payload_from_fields fields = do
    require (not (missing_fields fields)) secret_storage_exception
    version ← at_key js.get_uint32 (codes "version") fields
    ciphertext ← at_key js.get_string (codes "ciphertext") fields
    iv ← at_key js.get_string (codes "iv") fields
    salt ← at_key js.get_string (codes "salt") fields
    algorithm ← defaulted js js.get_string (codes "AES-GCM") (find (codes "algorithm") fields)
    iterations ← defaulted js js.get_uint32 100000 (find (codes "iterations") fields)
    metadata ← at_key (metadata_from_json js) (codes "metadata") fields
    ok (record {
      version = version;
      ciphertext = ciphertext;
      iv = iv;
      salt = salt;
      algorithm = algorithm;
      iterations = iterations;
      metadata = metadata;
    })

  unfoldable pub payload_from_json : Json → Result EncryptedSecretPayload
  payload_from_json (Json.object fields) = payload_from_fields fields
  payload_from_json j = err secret_storage_exception

  -- The `try` block of `fromString`: exceptions of the storage pass, the others become a failed decryption.
  abbrev pub corrupted : {A : Type 0} → Result A → Result A
  corrupted (ok a) = ok a
  corrupted (err secret_storage_exception) = err secret_storage_exception
  corrupted (err decryption_failed) = err decryption_failed
  corrupted (err thrown) = err decryption_failed

  unfoldable pub payload_from_string : Text → Result EncryptedSecretPayload
  payload_from_string s = corrupted (js.parse s >>= payload_from_json)

  unfoldable pub payload_to_string : EncryptedSecretPayload → Result Text
  payload_to_string p = js.dump (payload_to_json p)
