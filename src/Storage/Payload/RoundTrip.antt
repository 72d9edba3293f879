-- ===== src/Storage/Payload/RoundTrip.antt =====
-- Metadata and payloads are read back from the JSON that they are written as.
use knish_io_client_cpp.Base.{
  ◌+◌, ◌^◌, ◌<◌, ◌≡◌, ◌∙◌, refl, ap, Bool, true, false, is_empty, Text, codes, ok, arith, lt→ltb,
  Option, none, some,
}
use knish_io_client_cpp.Base.Int.{ℤ, pos, magnitude}
use knish_io_client_cpp.Json.{Json, Fields, before, put, find, is_ascii, is_plain}
use knish_io_client_cpp.Storage.Libraries.{JsonText, IsExactText}
use knish_io_client_cpp.Storage.Payload.{
  SecretStorageMetadata, EncryptedSecretPayload, metadata_to_json, metadata_from_json,
  metadata_from_fields, put_label, payload_to_json, payload_from_json, payload_from_fields,
  payload_from_string, payload_to_string,
}

-- A label that is absent, or not empty and of ASCII characters.
abbrev pub IsLabel : Option Text → Type 0
IsLabel none = Unit {0}
IsLabel (some label) = (is_empty label ≡ false) × (is_ascii label ≡ true)

-- Metadata of ASCII texts, with a time of 64 bits.
pub record IsAsciiMetadata (m : SecretStorageMetadata) : Type 0 where
  pub ascii-bundle_hash : is_ascii m.bundle_hash ≡ true
  pub ascii-label : IsLabel m.label
  pub ascii-provider_type : is_ascii m.provider_type ≡ true
  pub bounded-created_at : magnitude m.created_at < 2 ^ 63

-- The fields of the metadata, in the order of their keys.
abbrev label_fields : Option Text → Fields → Fields
label_fields none rest = rest
label_fields (some label) rest = Fields.field (codes "label") (Json.text label) rest

abbrev metadata_fields : Text → Option Text → ℤ → Bool → Text → Fields
metadata_fields bundle_hash label created_at hardware_backed provider_type =
    Fields.field (codes "bundleHash") (Json.text bundle_hash) (
      Fields.field (codes "createdAt") (Json.number created_at) (
        Fields.field (codes "hardwareBacked") (Json.boolean hardware_backed) (
          label_fields label
            (Fields.field (codes "providerType") (Json.text provider_type) Fields.end))))

put_label-fields :
    (bundle_hash : Text) (label : Option Text) (created_at : ℤ) (hardware_backed : Bool)
    (provider_type : Text)
    → IsLabel label
    → put_label label (metadata_fields bundle_hash none created_at hardware_backed provider_type)
      ≡ metadata_fields bundle_hash label created_at hardware_backed provider_type
unfolding put_label put before
put_label-fields bundle_hash none created_at hardware_backed provider_type h = refl
put_label-fields bundle_hash (some label) created_at hardware_backed provider_type h = rw h.0 refl

metadata_to_json-fields :
    (m : SecretStorageMetadata)
    → IsLabel m.label
    → metadata_to_json m
      ≡ Json.object
          (metadata_fields m.bundle_hash m.label m.created_at m.hardware_backed m.provider_type)
unfolding metadata_to_json put before
metadata_to_json-fields m h =
    ap Json.object
      (put_label-fields m.bundle_hash m.label m.created_at m.hardware_backed m.provider_type h)

metadata_fields-plain :
    (bundle_hash : Text) (label : Option Text) (created_at : ℤ) (hardware_backed : Bool)
    (provider_type : Text)
    → is_ascii bundle_hash ≡ true
    → IsLabel label
    → is_ascii provider_type ≡ true
    → magnitude created_at < 2 ^ 63
    → is_plain
        (Json.object (metadata_fields bundle_hash label created_at hardware_backed provider_type))
      ≡ true
unfolding is_plain before
metadata_fields-plain bundle_hash none created_at hardware_backed provider_type b l p m =
    rw (b, lt→ltb (magnitude created_at) 9223372036854775808 (omega arith), p) refl
metadata_fields-plain bundle_hash (some label) created_at hardware_backed provider_type b l p m =
    rw (b, lt→ltb (magnitude created_at) 9223372036854775808 (omega arith), l.1, p) refl

module _ (js : JsonText) (exact : IsExactText js) where
  metadata_from_fields-fields :
      (bundle_hash : Text) (label : Option Text) (created_at : ℤ) (hardware_backed : Bool)
      (provider_type : Text)
      → IsLabel label
      → magnitude created_at < 2 ^ 63
      → metadata_from_fields js
          (metadata_fields bundle_hash label created_at hardware_backed provider_type)
        ≡ ok (record {
          bundle_hash = bundle_hash;
          label = label;
          created_at = created_at;
          hardware_backed = hardware_backed;
          provider_type = provider_type;
        })
  unfolding metadata_from_fields find
  metadata_from_fields-fields bundle_hash none created_at hardware_backed provider_type l m =
      rw
        (
          exact.get_string-text bundle_hash,
          exact.get_int64-number created_at m,
          exact.get_boolean-boolean hardware_backed,
          exact.get_string-text provider_type,
        )
        refl
  metadata_from_fields-fields bundle_hash (some label) created_at hardware_backed provider_type l
        m =
      rw
        (
          exact.get_string-text bundle_hash,
          exact.get_int64-number created_at m,
          exact.get_boolean-boolean hardware_backed,
          exact.get_string-text provider_type,
          exact.get_string-text label,
        )
        refl

  -- Metadata whose label is not empty text, and whose time has 64 bits, are read back from their JSON.
  pub metadata_from_json-to_json :
      (m : SecretStorageMetadata)
      → IsLabel m.label
      → magnitude m.created_at < 2 ^ 63
      → metadata_from_json js (metadata_to_json m) ≡ ok m
  unfolding metadata_from_json
  metadata_from_json-to_json m l h = rw (metadata_to_json-fields m l) (
      metadata_from_fields-fields m.bundle_hash m.label m.created_at m.hardware_backed
        m.provider_type l h)

-- A payload of ASCII texts with numbers of 32 bits.
pub record IsAsciiPayload (p : EncryptedSecretPayload) : Type 0 where
  pub bounded-version : p.version < 2 ^ 32
  pub ascii-ciphertext : is_ascii p.ciphertext ≡ true
  pub ascii-iv : is_ascii p.iv ≡ true
  pub ascii-salt : is_ascii p.salt ≡ true
  pub ascii-algorithm : is_ascii p.algorithm ≡ true
  pub bounded-iterations : p.iterations < 2 ^ 32
  pub ascii-metadata : IsAsciiMetadata p.metadata

abbrev payload_fields : EncryptedSecretPayload → Json → Fields
payload_fields p metadata = Fields.field (codes "algorithm") (Json.text p.algorithm) (
    Fields.field (codes "ciphertext") (Json.text p.ciphertext) (
      Fields.field (codes "iterations") (Json.number (pos p.iterations)) (
        Fields.field (codes "iv") (Json.text p.iv) (
          Fields.field (codes "metadata") metadata (
            Fields.field (codes "salt") (Json.text p.salt)
              (Fields.field (codes "version") (Json.number (pos p.version)) Fields.end))))))

payload_to_json-fields :
    (p : EncryptedSecretPayload)
    → payload_to_json p ≡ Json.object (payload_fields p (metadata_to_json p.metadata))
unfolding payload_to_json put before
payload_to_json-fields p = refl

payload_fields-plain :
    (p : EncryptedSecretPayload) (metadata : Json)
    → IsAsciiPayload p
    → is_plain metadata ≡ true
    → is_plain (Json.object (payload_fields p metadata)) ≡ true
unfolding is_plain before
payload_fields-plain p metadata h m =
    rw
      (
        h.ascii-algorithm,
        h.ascii-ciphertext,
        h.ascii-iv,
        h.ascii-salt,
        m,
        lt→ltb (p.iterations + 0) 9223372036854775808 (omega (arith, h.bounded-iterations)),
        lt→ltb (p.version + 0) 9223372036854775808 (omega (arith, h.bounded-version)),
      )
      refl

payload_to_json-plain :
    (p : EncryptedSecretPayload) → IsAsciiPayload p → is_plain (payload_to_json p) ≡ true
payload_to_json-plain p h =
    let m = h.ascii-metadata in
    ap is_plain (payload_to_json-fields p)
    ∙ payload_fields-plain p (metadata_to_json p.metadata) h (
        ap is_plain (metadata_to_json-fields p.metadata m.ascii-label)
        ∙ metadata_fields-plain _ p.metadata.label _ _ _ m.ascii-bundle_hash m.ascii-label
            m.ascii-provider_type m.bounded-created_at)

module _ (js : JsonText) (exact : IsExactText js) where
  payload_from_fields-fields :
      (p : EncryptedSecretPayload) (metadata : Json)
      → p.version < 2 ^ 32
      → p.iterations < 2 ^ 32
      → metadata_from_json js metadata ≡ ok p.metadata
      → payload_from_fields js (payload_fields p metadata) ≡ ok p
  unfolding payload_from_fields find
  payload_from_fields-fields p metadata v i m =
      rw
        (
          exact.get_uint32-number p.version v,
          exact.get_string-text p.ciphertext,
          exact.get_string-text p.iv,
          exact.get_string-text p.salt,
          exact.get_string-text p.algorithm,
          exact.get_uint32-number p.iterations i,
          m,
        )
        refl

  payload_from_json-to_json :
      (p : EncryptedSecretPayload)
      → IsAsciiPayload p
      → payload_from_json js (payload_to_json p) ≡ ok p
  unfolding payload_from_json
  payload_from_json-to_json p h = rw (payload_to_json-fields p) (
      payload_from_fields-fields p (metadata_to_json p.metadata) h.bounded-version
        h.bounded-iterations
        (metadata_from_json-to_json js exact p.metadata h.ascii-metadata.ascii-label
          h.ascii-metadata.bounded-created_at))

  -- A payload of ASCII texts, with numbers of 32 bits, a time of 64 bits and a label that is not empty text, is
  -- printed by toString, and fromString reads the same payload back.
  pub payload_from_string-to_string :
      (p : EncryptedSecretPayload)
      → IsAsciiPayload p
      → (t : Text) × (payload_to_string js p ≡ ok t) × (payload_from_string js t ≡ ok p)
  unfolding payload_to_string payload_from_string
  payload_from_string-to_string p h =
      let (t, dumped, parsed) = exact.parse-dump (payload_to_json p) (payload_to_json-plain p h) in
      (t, dumped, rw (parsed, payload_from_json-to_json p h) refl)
