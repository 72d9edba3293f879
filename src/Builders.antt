-- ===== src/Builders.antt =====
-- The functions of src/Molecule.cpp that build a molecule's atoms and end it with a ContinuID atom. Each
-- changes the molecule and returns a copy of its atoms; the model returns the molecule, and a result beside
-- it where the function may throw. `clock` gives the
-- time that the constructor of `Atom` reads, by the index of the atom.
pub mod ContinuId
use knish_io_client_cpp.Base.{
  ℕ, suc, ◌+◌, Bool, true, false, not, List, [], ◌∷◌, ◌++◌, if◌then◌else◌, length, is_empty, Text,
  codes, Option, none, some, Result, ok,
}
use knish_io_client_cpp.Base.Int.{ℤ, pos}
use knish_io_client_cpp.Base.Decimal.{decimal}
use knish_io_client_cpp.Libraries.{Libraries}
use knish_io_client_cpp.Codec.Base64.{to_base64}
use knish_io_client_cpp.Atom.{Atom, Meta}
use knish_io_client_cpp.Wallet.{Wallet, TokenUnit}
use knish_io_client_cpp.Units.{units_meta}
use knish_io_client_cpp.Molecule.{Molecule, attempt}

abbrev pub Clock : Type 0
Clock = ℕ → ℤ

-- The constructor of `Atom`, at the defaults of the fields that it does not take.
unfoldable pub new_atom :
    Clock → Text → Text → Text → Text → Text → Text → Text → Text → Meta → ℕ → Atom
new_atom clock position wallet_address isotope token value batch_id meta_type meta_id meta index =
    record {
      position = position;
      wallet_address = wallet_address;
      isotope = isotope;
      token = token;
      value = value;
      batch_id = batch_id;
      meta_type = meta_type;
      meta_id = meta_id;
      meta = meta;
      ots_fragment = [];
      created_at = clock index;
      index = pos index;
      version = none;
      null_meta = [];
      parsed_empty = record {
        empty_value = false;
        empty_batch_id = false;
        empty_meta_type = false;
        empty_meta_id = false;
      };
    }

-- `this->atoms.push_back(…)`
abbrev pub push : Molecule → Atom → Molecule
push m a = record m { atoms = m.atoms ++ (a ∷ []) }

-- `this->molecularHash.clear();`
abbrev pub clear_hash : Molecule → Molecule
clear_hash m = record m { molecular_hash = [] }

-- A meta pair that is left out when its source is empty.
abbrev pub meta_unless : Bool → Text → Text → Meta
meta_unless without key value = if without then [] else (key, value) ∷ []

unfoldable pub build_wallet_meta_keys : Wallet → Meta
build_wallet_meta_keys w =
    (codes "walletTokenSlug", w.token)
    ∷ (codes "walletBundleHash", w.bundle)
    ∷ (codes "walletAddress", w.address)
    ∷ (codes "walletPosition", w.position)
    ∷ (meta_unless (is_empty w.batch_id) (codes "walletBatchId") w.batch_id
        ++ (meta_unless (is_empty w.mlkem_public_key) (codes "walletPubkey")
              (to_base64 w.mlkem_public_key)
            ++ ((codes "walletCharacters", codes "BASE64") ∷ [])))

-- The ContinuID atom, of the remainder wallet where there is one.
unfoldable pub continu_id_atom : Clock → Option Wallet → Wallet → ℕ → Atom
continu_id_atom clock none source index =
    new_atom clock source.position source.address (codes "I") source.token [] []
      (codes "walletBundle") source.bundle [] index
continu_id_atom clock (some r) source index =
    new_atom clock r.position r.address (codes "I") r.token [] [] (codes "walletBundle") r.bundle
      ((codes "previousPosition", source.position)
        ∷ (meta_unless (is_empty r.mlkem_public_key) (codes "pubkey") (to_base64 r.mlkem_public_key)
            ++ ((codes "characters", codes "BASE64") ∷ [])))
      index

unfoldable pub add_continu_id_atom : Clock → Molecule → Wallet → ℕ → Molecule
add_continu_id_atom clock m source index =
    push m (continu_id_atom clock m.remainder_wallet source index)

unfoldable pub init_token_creation : Clock → Molecule → Wallet → Wallet → Text → Meta → Molecule
init_token_creation clock m source recipient amount token_meta =
    let created =
      new_atom clock source.position source.address (codes "C") source.token amount []
        (codes "token") recipient.token (token_meta ++ build_wallet_meta_keys recipient) 0 in
    add_continu_id_atom clock (push (clear_hash m) created) source 1

-- The C atom of a replenishment, with the meta of its token units.
unfoldable pub replenish_atom : Clock → Wallet → Wallet → Text → List TokenUnit → Meta → Atom
replenish_atom clock source credited amount units token_units =
    let meta =
      (codes "action", codes "add")
      ∷ (codes "address", credited.address)
      ∷ (codes "position", credited.position)
      ∷ (meta_unless (is_empty credited.mlkem_public_key) (codes "pubkey")
            (to_base64 credited.mlkem_public_key)
          ++ (meta_unless (is_empty credited.batch_id) (codes "batchId") credited.batch_id
              ++ token_units)) in
    new_atom clock source.position source.address (codes "C") source.token
      (if is_empty units then amount else decimal (length units)) credited.batch_id (codes "token")
      credited.token meta 0

unfoldable pub init_token_replenish :
    Libraries
    → Clock
    → Molecule
    → Wallet
    → Wallet
    → Text
    → List TokenUnit
    → Result (List Atom) × Molecule
init_token_replenish lib clock m source credited amount units =
    let cleared = clear_hash m in
    attempt cleared (units_meta lib units) (λ token_units.
      let created = replenish_atom clock source credited amount units token_units in
      let after = add_continu_id_atom clock (push cleared created) source 1 in
      (ok after.atoms, after))

unfoldable pub init_meta : Clock → Molecule → Wallet → Meta → Text → Text → Molecule
init_meta clock m w meta meta_type meta_id =
    add_continu_id_atom clock
      (push (clear_hash m)
        (new_atom clock w.position w.address (codes "M") w.token [] [] meta_type meta_id meta 0))
      w 1

unfoldable pub init_authorization : Clock → Molecule → Wallet → Bool → Molecule
init_authorization clock m source encrypt =
    let u_meta =
      (codes "encrypt", (if encrypt then codes "true" else codes "false"))
      ∷ (meta_unless (is_empty source.mlkem_public_key) (codes "pubkey")
            (to_base64 source.mlkem_public_key)
          ++ (meta_unless (is_empty source.mlkem_public_key) (codes "walletPubkey")
                (to_base64 source.mlkem_public_key)
              ++ ((codes "characters", codes "BASE64") ∷ []))) in
    add_continu_id_atom clock
      (push (clear_hash m) (
        new_atom clock source.position source.address (codes "U") source.token [] [] [] [] u_meta
          0))
      source 1

unfoldable pub init_wallet_creation : Clock → Molecule → Wallet → Wallet → Meta → Molecule
init_wallet_creation clock m source w atom_meta =
    let created =
      new_atom clock source.position source.address (codes "C") source.token [] [] (codes "wallet")
        w.address (atom_meta ++ build_wallet_meta_keys w) 0 in
    add_continu_id_atom clock (push (clear_hash m) created) source 1

unfoldable pub init_shadow_wallet_claim : Clock → Molecule → Wallet → Wallet → Molecule
init_shadow_wallet_claim clock m source w =
    init_wallet_creation clock m source w ((codes "shadowWalletClaim", codes "1") ∷ [])
