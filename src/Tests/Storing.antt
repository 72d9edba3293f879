-- ===== src/Tests/Storing.antt =====
-- Runs of the theorems on the secret storage, with a cipher that leaves the text as it is and a tag that is the
-- length of the key.
use knish_io_client_cpp.Base.{
  ℕ, ◌%◌, ◌≡◌, ◌∙◌, refl, sym, ap, Bool, true, false, List, [], ◌∷◌, all, ltb, ltb→lt, length,
  length-replicate, replicate, All, All-replicate, IsByte, Text, codes, same, same_refl, ok, arith,
  if◌then◌else◌, Option, none, some, &&_split,
}
use knish_io_client_cpp.Base.Int.{pos}
use knish_io_client_cpp.Storage.Libraries.{OpenSsl, IsAead}
use knish_io_client_cpp.Storage.Payload.{
  SecretStorageMetadata, EncryptedSecretPayload, payload_from_string, payload_to_string,
}
use knish_io_client_cpp.Storage.Payload.RoundTrip.{payload_from_string-to_string}
use knish_io_client_cpp.Storage.Envelope.RoundTrip.{Sealing}
use knish_io_client_cpp.Storage.Backend.{memory_backend}
use knish_io_client_cpp.Storage.Provider.{StorageOptions, Draws}
use knish_io_client_cpp.Storage.Provider.Stored.{IsAsciiCall, AcceptsWrites}
use knish_io_client_cpp.Storage.Provider.Deleted.{AcceptsRemovals}
use knish_io_client_cpp.Tests.JsonCode.{test_json, test_json-IsExactText}

unfoldable pub are_bytes : Text → Bool
are_bytes s = all (λ c. ltb c 256) s

pub bytes_of : (s : Text) → are_bytes s ≡ true → All IsByte s
unfolding are_bytes
bytes_of [] h = tt
bytes_of (c ∷ s) h =
    let (first, rest) = &&_split (ltb c 256) _ h in (ltb→lt c 256 first, bytes_of s rest)

abbrev pub tag_of : List ℕ → List ℕ
tag_of key = replicate 16 (length key % 256)

unfoldable pub encrypt_when : Bool → List ℕ → Text → Option (List ℕ × List ℕ)
encrypt_when true key text = some (text, tag_of key)
encrypt_when false key text = none

unfoldable pub test_ssl : OpenSsl
unfolding encrypt_when are_bytes
test_ssl = record {
  pkcs5_pbkdf2_hmac = λ passphrase salt iterations. some passphrase;
  encrypt = λ key iv text. encrypt_when (are_bytes text) key text;
  decrypt = λ key iv sealed tag. if same tag (tag_of key) then some sealed else none;
}

pair_of : Option (List ℕ × List ℕ) → List ℕ × List ℕ
pair_of none = ([], [])
pair_of (some pair) = pair

encrypted-lem :
    (b : Bool) (key : List ℕ) (text : Text) (sealed tag : List ℕ)
    → encrypt_when b key text ≡ some (sealed, tag)
    → (text ≡ sealed) × (tag_of key ≡ tag) × (b ≡ true)
unfolding encrypt_when pair_of
encrypted-lem true key text sealed tag h =
    (ap (λ o. (pair_of o).0) h, ap (λ o. (pair_of o).1) h, refl)
encrypted-lem false key text sealed tag h = cc

opened-lem :
    (key sealed : List ℕ)
    → (if same (tag_of key) (tag_of key) then some sealed else none) ≡ some sealed
opened-lem key sealed = rw (same_refl (tag_of key)) refl

pub test_ssl-IsAead : IsAead test_ssl
unfolding test_ssl
test_ssl-IsAead = record {
  decrypt-encrypt = λ key iv text sealed tag h.
      let (e, t, bytes) = encrypted-lem (are_bytes text) key text sealed tag h in
      (
        ap (λ u. if same u (tag_of key) then some sealed else none) (sym t)
            ∙ opened-lem key sealed
            ∙ ap some (sym e),
        ap length (sym t) ∙ length-replicate {A = ℕ} 16 (length key % 256),
        rw⁻¹ e (bytes_of text bytes),
        rw⁻¹ t (All-replicate IsByte 16 (length key % 256) (omega arith)),
      );
}

abbrev pub a_text : Text
a_text = codes "pass"

unfoldable pub test_sealing :
    (secret passphrase : Text) → are_bytes secret ≡ true → Sealing test_ssl secret passphrase
unfolding test_ssl
test_sealing secret passphrase h = record {
  salt = replicate 16 7;
  iv = replicate 12 9;
  key = passphrase;
  ciphertext = secret;
  tag = tag_of passphrase;
  salt-bytes = All-replicate IsByte 16 7 (omega arith);
  iv-bytes = All-replicate IsByte 12 9 (omega arith);
  length-iv = refl;
  derived = refl;
  encrypted = ap (λ b. encrypt_when b passphrase secret) h;
}

abbrev pub test_draws : Draws
test_draws = record {
  now = pos 1700000000000;
  salt = some (replicate 16 7);
  iv = some (replicate 12 9);
  recovery_salt = some (replicate 16 7);
  recovery_iv = some (replicate 12 9);
}

abbrev pub options_of : Option Text → Option Text → StorageOptions
options_of passphrase recovery = record {
  label = some (codes "main");
  passphrase = passphrase;
  recovery_passphrase = recovery;
  allow_unrecoverable = false;
}

pub test_call :
    (passphrase recovery : Option Text)
    → IsAsciiCall (codes "ab") (options_of passphrase recovery) (pos 1700000000000)
test_call passphrase recovery = record {
  ascii_hash = refl;
  ascii_label = (refl, refl);
  bounded_now = omega arith;
}

pub memory-writes : AcceptsWrites memory_backend
unfolding memory_backend
memory-writes key value s = refl

pub memory-removals : AcceptsRemovals memory_backend
unfolding memory_backend
memory-removals key s = (_, refl)

pub empty_store : memory_backend.State
unfolding memory_backend
empty_store = []

pub secret-bytes : are_bytes (codes "secret") ≡ true
unfolding are_bytes
secret-bytes = refl

abbrev test_metadata : SecretStorageMetadata
test_metadata = record {
  bundle_hash = codes "ab";
  label = some (codes "main");
  created_at = pos 5;
  hardware_backed = false;
  provider_type = codes "aes-gcm";
}

abbrev test_payload : EncryptedSecretPayload
test_payload = record {
  version = 1;
  ciphertext = codes "AAAA";
  iv = codes "BBBB";
  salt = codes "CCCC";
  algorithm = codes "AES-GCM";
  iterations = 100000;
  metadata = test_metadata;
}

payload_from_string-to_string_example :
    (t : Text) × (payload_to_string test_json test_payload ≡ ok t)
    × (payload_from_string test_json t ≡ ok test_payload)
payload_from_string-to_string_example =
    payload_from_string-to_string test_json test_json-IsExactText test_payload (record {
      bounded-version = omega arith;
      ascii-ciphertext = refl;
      ascii-iv = refl;
      ascii-salt = refl;
      ascii-algorithm = refl;
      bounded-iterations = omega arith;
      ascii-metadata = record {
        ascii-bundle_hash = refl;
        ascii-label = (refl, refl);
        ascii-provider_type = refl;
        bounded-created_at = omega arith;
      };
    })
