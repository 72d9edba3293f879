-- ===== src/Molecule.antt =====
-- `Molecule` of src/Molecule.h: signing and verification in src/Molecule.cpp. A member function that
-- changes the object returns the object beside its result, and what it had written when it threw. Where the
-- build has the optional kcore library, the same chains are computed there; the model is of the code
-- without it.
pub mod Assign
pub mod Signature
pub mod Signing
use knish_io_client_cpp.Base.{
  ℕ, ◌+◌, ◌-◌, ◌/◌, Bool, true, false, not, ◌&&◌, ◌||◌, List, [], ◌∷◌, ◌++◌, map, arith, ◌==◌,
  if◌then◌else◌, length, is_empty, any, concat, Text, codes, same, Result, ok, err, ◌>>=◌, ◌>>◌,
  require, is_ok, Exception, invalid_argument, runtime_error, out_of_range, atoms_not_found,
  signature_malformed, signature_mismatch, Option, none, some,
}
use knish_io_client_cpp.Base.Int.{ℤ, pos}
use knish_io_client_cpp.Libraries.{Libraries}
use knish_io_client_cpp.Codec.Base64.{hex_to_base64, base64_to_hex, is_strict_base64}
use knish_io_client_cpp.Codec.Chunks.{chunk_substr}
use knish_io_client_cpp.BigInt.{is_signable_hash}
use knish_io_client_cpp.Atom.{Atom, hash_atoms_base17}
use knish_io_client_cpp.Wallet.{Wallet, generate_bundle_hash, generate_wallet_key, squeeze_address}
use knish_io_client_cpp.Ots.{enumerate, normalize, sign_chains, verify_chains}

pub record Molecule : Type 0 where
  pub molecular_hash : Text
  pub cell_slug : Text
  pub bundle : Text
  pub status : Text
  pub atoms : List Atom
  pub created_at : ℤ
  pub source_wallet : Option Wallet
  pub remainder_wallet : Option Wallet

-- A call that may throw, inside a member function: the object stays as it was when the call was made.
abbrev pub attempt :
    {A B : Type 0} → Molecule → Result A → (A → Result B × Molecule) → Result B × Molecule
attempt m (ok a) rest = rest a
attempt m (err e) rest = (err e, m)

unfoldable pub signing_ots_version : Molecule → ℤ
signing_ots_version m = elim m.source_wallet [ none ↦ pos 1 | some w ↦ w.ots_version ]

-- The loop that stores the pieces in the atoms, with the last position. The source does not test the index;
-- writing past the last atom is the error `out_of_range` here.
unfoldable pub assign_fragments : List Atom → List Text → Text → Result (List Atom × Text)
assign_fragments atoms [] last_position = ok (atoms, last_position)
assign_fragments [] (piece ∷ pieces) last_position = err out_of_range
assign_fragments (a ∷ atoms) (piece ∷ pieces) last_position = do
  (rest, last) ← assign_fragments atoms pieces a.position
  ok (record a { ots_fragment = piece } ∷ rest, last)

-- `for (auto &atom : molecule.atoms) ots += atom.otsFragment;`
abbrev pub joined_fragments : List Atom → Text
joined_fragments atoms = concat (map (λ a. a.ots_fragment) atoms)

-- The signature in hexadecimal: as it stands when its length is right, and otherwise decoded.
unfoldable pub signature_hex : Text → Result Text
signature_hex ots =
    (if not (length ots == 2048) && not (length ots == 8192)
      then require (is_strict_base64 ots) signature_malformed >> ok (base64_to_hex ots)
      else ok ots)
    >>= λ hex.
        require (not (not (length hex == 2048) && not (length hex == 8192))) signature_malformed
        >> ok hex

unfoldable pub has_continu_id : List Atom → Bool
has_continu_id [] = true
has_continu_id (front ∷ atoms) =
    if not (same front.token (codes "USER"))
    then true
    else any (λ a. same a.isotope (codes "I")) (front ∷ atoms)

unfoldable pub verify_continu_id : Molecule → Bool
verify_continu_id m = has_continu_id m.atoms

module _ (lib : Libraries) where
  -- The one-time signature of a hash by a key.
  unfoldable pub signature_fragments : Text → Text → Bool → Result Text
  signature_fragments molecular_hash key compressed = do
    fragments ← sign_chains lib (normalize (enumerate molecular_hash)) (chunk_substr key 128)
    if compressed then hex_to_base64 fragments else ok fragments

  -- The signature, cut into pieces for the atoms.
  unfoldable pub sign_atoms : Molecule → Atom → Text → Bool → Result (List Atom × Text)
  sign_atoms m front secret compressed = do
    key ← generate_wallet_key lib secret front.token front.position (signing_ots_version m)
    fragments ← signature_fragments m.molecular_hash key compressed
    let chunk_size = (length fragments + length m.atoms - 1) / length m.atoms
    assign_fragments m.atoms (chunk_substr fragments chunk_size) []

  unfoldable pub sign : Molecule → Text → Bool → Bool → Result Text × Molecule
  sign m secret anonymous compressed = elim m.atoms [
    | [] ↦ (err atoms_not_found, m)
    | front ∷ _ ↦
        attempt m (if not anonymous then generate_bundle_hash lib secret else ok m.bundle)
          (λ bundle.
            let bundled = record m { bundle = bundle } in
            attempt bundled (hash_atoms_base17 lib bundled.atoms) (λ molecular_hash.
              let hashed = record bundled { molecular_hash = molecular_hash } in
              attempt hashed (require (is_signable_hash molecular_hash) signature_malformed) (λ _.
                attempt hashed (sign_atoms hashed front secret compressed)
                  (λ r. (ok r.1, record hashed { atoms = r.0 })))))
  ]

  unfoldable pub verify_ots : Molecule → Result (Unit {0})
  verify_ots m = elim m.atoms [
    | [] ↦ err atoms_not_found
    | front ∷ _ ↦ do
      require (is_signable_hash m.molecular_hash) signature_malformed
      ots ← signature_hex (joined_fragments m.atoms)
      key_fragments ←
          verify_chains lib (normalize (enumerate m.molecular_hash)) (chunk_substr ots 128)
      address ← squeeze_address lib key_fragments
      require (same address front.wallet_address) signature_mismatch
  ]

  unfoldable pub verify_molecular_hash : Molecule → Result Bool
  verify_molecular_hash m =
      if not (is_empty m.atoms) && not (is_empty m.molecular_hash)
      then (hash_atoms_base17 lib m.atoms >>= λ atomic_hash. ok (same atomic_hash m.molecular_hash))
      else ok false
