-- ===== src/Tests.antt =====
-- Runs of the theorems at concrete inputs, with a sponge that repeats one byte: the length of its input.
pub mod Building
pub mod Values
pub mod Checks
pub mod JsonCode
pub mod Storing
pub mod Providers
pub mod Wires
pub mod Answers
pub mod Messages
pub mod Refused
use knish_io_client_cpp.Base.{
  if◌then◌else◌, ◌⊎◌, Exception, json_error, err, Option, ℕ, ◌+◌, ◌%◌, ◌≡◌, inl, inr, refl, ap, ◌∙◌,
  true, false, List, [], ◌∷◌, map, arith, length, concat, replicate, length-replicate, All,
  All-replicate, IsByte, Text, codes, ok, ◌>>=◌, none, some,
}
use knish_io_client_cpp.Base.Int.{ℤ, pos}
use knish_io_client_cpp.Base.Powers.{little}
use knish_io_client_cpp.Json.{is_plain}
use knish_io_client_cpp.Libraries.{Libraries}
use knish_io_client_cpp.Hash.{hex_digest, length-hex_digest}
use knish_io_client_cpp.Codec.Hex.{
  is_hex_digit, hex_digit, to_hex_string, from_hex_string, IsLowerHex, is_lower_hex,
  from_hex_string-lower,
}
use knish_io_client_cpp.Codec.Base64.{
  to_base64, from_base64, hex_to_base64, base64_to_hex, is_strict_base64,
}
use knish_io_client_cpp.Codec.Base64.RoundTrip.{from_base64-to_base64}
use knish_io_client_cpp.Codec.Base64.Strict.{hex_base64_roundtrip}
use knish_io_client_cpp.Codec.Chunks.{chunk_substr, concat-chunk_substr}
use knish_io_client_cpp.BigInt.{
  limb_base, add, constant_time_hex_add, is_signable_hash, is_valid_hex,
}
use knish_io_client_cpp.BigInt.Sum.{IsLimbs, little-add}
use knish_io_client_cpp.BigInt.Parse.{hex_value}
use knish_io_client_cpp.BigInt.HexAdd.{constant_time_hex_add-sum}
use knish_io_client_cpp.Radix.{charset_base_convert, strlen}
use knish_io_client_cpp.Radix.Convert.{charset_base_convert-value, symbol_of, IsInBase}
use knish_io_client_cpp.Atom.{
  view_atom, view_meta, stable_sort, insert_by_key, version4_view_json, Atom, hash_atoms_base17,
}
use knish_io_client_cpp.Atom.Order.{unsigned, hash_atoms_base17-unsigned}
use knish_io_client_cpp.Atom.Digest.{
  HasView, is_versioned, legacy-HasView, hash_atoms_base17-is_signable_hash,
}
use knish_io_client_cpp.Wallet.{
  to_lower, detect_ots_version, hash_fragments, generate_wallet_key, generate_wallet_address,
}
use knish_io_client_cpp.Wallet.Keys.{
  generate_wallet_key-ok, generate_wallet_address-ok, squeeze_address-ok,
}
use knish_io_client_cpp.Wallet.Detect.{Detected, detect_ots_version-Detected}
use knish_io_client_cpp.Ots.{enumerate, normalize, sign_chains, verify_chains}
use knish_io_client_cpp.Ots.Passes.{sum, InRange}
use knish_io_client_cpp.Ots.Normalize.{normalize-sum, normalize-shape}
use knish_io_client_cpp.Molecule.{
  Molecule, signing_ots_version, assign_fragments, joined_fragments, sign, verify_ots,
  verify_molecular_hash,
}
use knish_io_client_cpp.Molecule.Assign.{assign_fragments-ok}
use knish_io_client_cpp.Molecule.Signature.{verify_chains-sign_chains}
use knish_io_client_cpp.Molecule.Signing.{sign-verify_ots}

abbrev pub test_libraries : Libraries
test_libraries = record {
  fips202_shake256 = λ s n. replicate n (length s % 256);
  length-fips202_shake256 = λ s n. length-replicate {A = ℕ} n (length s % 256);
  fips202_shake256-bytes = λ s n. All-replicate IsByte n (length s % 256) (omega arith);
  dump = λ j. if is_plain j then ok [] else err json_error;
}

abbrev pub zeros : Text
zeros = replicate 64 b'0'

abbrev pub test_atom : Text → Atom
test_atom address = record {
  position = codes "0a";
  wallet_address = address;
  isotope = codes "M";
  token = codes "USER";
  value = [];
  batch_id = [];
  meta_type = codes "thing";
  meta_id = codes "7";
  meta = (codes "k", codes "v") ∷ [];
  ots_fragment = [];
  created_at = pos 1700000000000;
  index = pos 0;
  version = none;
  null_meta = [];
  parsed_empty = record {
    empty_value = false;
    empty_batch_id = false;
    empty_meta_type = false;
    empty_meta_id = false;
  };
}

abbrev pub test_molecule : Molecule
test_molecule = record {
  molecular_hash = [];
  cell_slug = [];
  bundle = [];
  status = [];
  atoms = test_atom zeros ∷ test_atom (codes "b") ∷ test_atom (codes "c") ∷ [];
  created_at = pos 0;
  source_wallet = none;
  remainder_wallet = none;
}

hex_digest-zeros : (s : Text) → length s ≡ 2048 → hex_digest test_libraries s 32 ≡ zeros
unfolding hex_digest to_hex_string hex_digit
hex_digest-zeros s h = rw h refl

-- At the test sponge every key has the address of 64 zeros.
address-zeros : (key : Text) → generate_wallet_address test_libraries key ≡ ok zeros
address-zeros key =
    generate_wallet_address-ok test_libraries key
    ∙ squeeze_address-ok test_libraries _
    ∙ ap ok (hex_digest-zeros _ (length-hex_digest test_libraries _ 1024))

pub test_owned :
    (token : Text)
    → (generate_wallet_key test_libraries (codes "ab") token (codes "0a") (pos 1)
        >>= generate_wallet_address test_libraries)
      ≡ ok zeros
test_owned token =
    let (key, run, _, _) =
      generate_wallet_key-ok test_libraries (codes "ab") token (codes "0a") (pos 1) refl refl
        (inl refl) in
    rw run (address-zeros key)

abbrev versioned : Atom → Atom
versioned a = record a { version = some (codes "4") }

abbrev versioned_molecule : Molecule
versioned_molecule = record test_molecule { atoms = map versioned test_molecule.atoms }

versioned-HasView : HasView test_libraries versioned_molecule.atoms
unfolding version4_view_json view_atom view_meta stable_sort insert_by_key is_plain
versioned-HasView h = refl

sign-verify_ots_example :
    (last : Text) × (signed : Molecule) × (sign test_libraries versioned_molecule
        (codes "ab")
        false
        true
      ≡ (ok last, signed))
    × (verify_ots test_libraries signed ≡ ok tt)
    × (verify_molecular_hash test_libraries signed ≡ ok true)
unfolding signing_ots_version
sign-verify_ots_example =
    sign-verify_ots test_libraries versioned_molecule (codes "ab") false true
      (versioned (test_atom zeros))
      (versioned (test_atom (codes "b")) ∷ versioned (test_atom (codes "c")) ∷ []) refl
      (refl, (refl, (refl, tt))) refl refl (inl refl) (test_owned (codes "USER")) versioned-HasView

normalize-sum_example : sum (normalize (enumerate (codes "0g8z9a"))) ≡ pos 0
normalize-sum_example = normalize-sum (enumerate (codes "0g8z9a"))

generate_wallet_key-ok_example :
    (key : Text) × (generate_wallet_key test_libraries
        (codes "secret")
        (codes "USER")
        (codes "0a")
        (pos 2)
      ≡ ok key)
    × All IsLowerHex key
    × (length key ≡ 8192)
generate_wallet_key-ok_example =
    generate_wallet_key-ok test_libraries (codes "secret") (codes "USER") (codes "0a") (pos 2) refl
      refl (inr refl)

constant_time_hex_add-sum_example :
    (r : Text) × (constant_time_hex_add (codes "ffffffffFFFFFFFF") (codes "01") ≡ ok r)
    × (hex_value r ≡ hex_value (codes "ffffffffFFFFFFFF") + hex_value (codes "01"))
    × All IsLowerHex r
unfolding is_valid_hex
constant_time_hex_add-sum_example =
    constant_time_hex_add-sum (codes "ffffffffFFFFFFFF") (codes "01") refl refl

hash_atoms_base17-is_signable_hash_example :
    ((h : Text) × (hash_atoms_base17 test_libraries test_molecule.atoms ≡ ok h)
      × (is_signable_hash h ≡ true))
    ⊎ ((thrown : Exception) × (is_versioned test_molecule.atoms ≡ true)
        × (version4_view_json test_libraries test_molecule.atoms ≡ err thrown)
        × (hash_atoms_base17 test_libraries test_molecule.atoms ≡ err thrown))
hash_atoms_base17-is_signable_hash_example =
    hash_atoms_base17-is_signable_hash test_libraries test_molecule.atoms

hash_atoms_base17-unsigned_example :
    hash_atoms_base17 test_libraries (map unsigned test_molecule.atoms)
    ≡ hash_atoms_base17 test_libraries test_molecule.atoms
hash_atoms_base17-unsigned_example = hash_atoms_base17-unsigned test_libraries test_molecule.atoms

from_base64-to_base64_example : from_base64 (to_base64 (250 ∷ 0 ∷ [])) ≡ 250 ∷ 0 ∷ []
from_base64-to_base64_example =
    from_base64-to_base64 (250 ∷ 0 ∷ []) (omega arith, (omega arith, tt))

lower_0aff : All IsLowerHex (codes "0aff")
unfolding is_lower_hex
lower_0aff = (refl, (refl, (refl, (refl, tt))))

hex_base64_roundtrip_example :
    (t : Text) × (hex_to_base64 (codes "0aff") ≡ ok t)
    × (base64_to_hex t ≡ codes "0aff")
    × (length t ≡ 4)
    × (is_strict_base64 t ≡ true)
hex_base64_roundtrip_example = hex_base64_roundtrip (codes "0aff") lower_0aff refl (omega arith)

charset_base_convert-value_example :
    (ds : List ℕ) × (charset_base_convert (codes "00ff12") 16 17 (some (codes "0123456789abcdefg"))
      ≡ ok (map (symbol_of (codes "0123456789abcdefg")) ds))
    × IsInBase 17 (hex_value (codes "00ff12")) ds
unfolding is_hex_digit strlen
charset_base_convert-value_example =
    charset_base_convert-value 17 (omega arith) (omega arith) (codes "0123456789abcdefg")
      (codes "00ff12") (omega arith) refl (λ e. cc)

assign_fragments-ok_example :
    (after : List Atom) × (final : Text) × (assign_fragments test_molecule.atoms
        (codes "ab" ∷ codes "c" ∷ [])
        []
      ≡ ok (after, final))
    × (joined_fragments after ≡ codes "abc")
    × (map unsigned after ≡ map unsigned test_molecule.atoms)
assign_fragments-ok_example =
    assign_fragments-ok test_molecule.atoms (codes "ab" ∷ codes "c" ∷ []) []
      (refl, (refl, (refl, tt))) (omega arith)

normalize-shape_example :
    (length (normalize (enumerate (replicate 64 b'g'))) ≡ 64)
    × All InRange (normalize (enumerate (replicate 64 b'g')))
unfolding is_signable_hash
normalize-shape_example = normalize-shape (replicate 64 b'g') refl

test_key-IsLowerHex : All IsLowerHex (replicate 2048 b'a')
unfolding is_lower_hex
test_key-IsLowerHex = All-replicate IsLowerHex 2048 b'a' refl

verify_chains-sign_chains_example :
    (s : Text) × (sign_chains test_libraries
        (normalize (enumerate (replicate 64 b'g')))
        (chunk_substr (replicate 2048 b'a') 128)
      ≡ ok s)
    × (verify_chains test_libraries (normalize (enumerate (replicate 64 b'g'))) (chunk_substr s 128)
        ≡ hash_fragments test_libraries (chunk_substr (replicate 2048 b'a') 128))
unfolding is_signable_hash
verify_chains-sign_chains_example =
    verify_chains-sign_chains test_libraries (replicate 64 b'g') (replicate 2048 b'a') 16 refl
      (inl refl) test_key-IsLowerHex (length-replicate {A = ℕ} 2048 b'a')

detect_ots_version-Detected_example :
    (r : Option ℤ) × (detect_ots_version test_libraries
        (codes "ab")
        (codes "USER")
        (codes "0a")
        zeros
        (pos 2)
      ≡ ok r)
    × Detected test_libraries
        (codes "ab")
        (codes "USER")
        (codes "0a")
        (map to_lower zeros)
        (pos 1)
        (pos 2)
        r
detect_ots_version-Detected_example =
    detect_ots_version-Detected test_libraries (codes "ab") (codes "USER") (codes "0a") zeros
      (pos 2) refl refl refl (inr refl)
