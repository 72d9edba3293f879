-- ===== src/Wire/Molecules.antt =====
-- `Molecule::jsonToObject` on the object that `Molecule::toJson` prints.
use knish_io_client_cpp.Base.{
  ◌^◌, ◌<◌, ◌≡◌, ◌≢◌, ◌∙◌, refl, sym, ap, true, false, Bool-cases, inl, inr, All, is_empty,
  if◌then◌else◌, Text, codes, same, same→eq, same_refl, ok, Option, none, some,
}
use knish_io_client_cpp.Base.Int.{ℤ, pos, magnitude}
use knish_io_client_cpp.Base.Decimal.{to_string}
use knish_io_client_cpp.Base.Integers.{stoi}
use knish_io_client_cpp.Json.{Json, Fields, before, put, find}
use knish_io_client_cpp.Wallet.{Wallet}
use knish_io_client_cpp.Libraries.{Libraries}
use knish_io_client_cpp.Floats.{Floats}
use knish_io_client_cpp.Molecule.{Molecule, verify_continu_id, verify_molecular_hash, verify_ots}
use knish_io_client_cpp.Conservation.{verify_token_isotope_v}
use knish_io_client_cpp.Check.{check, token_valid}
use knish_io_client_cpp.Storage.Libraries.{JsonText, IsExactText}
use knish_io_client_cpp.Storage.Backend.Map.{differ}
use knish_io_client_cpp.Wire.Write.{
  nullable, atoms_to_json, molecule_fields, molecule_to_json, put_source, put_remainder,
  wallet_to_json,
}
use knish_io_client_cpp.Wire.Plain.{IsWireAtom}
use knish_io_client_cpp.Wire.RoundTrip.{
  strtoll-to_string, or_empty-kept, nullable_at-nullable, atoms_from-atoms,
}
use knish_io_client_cpp.Wire.Read.{molecule_from_json}

-- The source wallet's balance is empty or read by `std::stoi`.
abbrev pub HasBalance : Option Wallet → Type 0
HasBalance none = Unit {0}
HasBalance (some w) =
    (balance : ℤ) × ((if is_empty w.balance then ok (pos 0) else stoi w.balance) ≡ ok balance)

find-put_other :
    (key other : Text) (value : Json) (fields : Fields)
    → same other key ≡ false
    → find other (put key value fields) ≡ find other fields
unfolding find put
find-put_other key other value Fields.end h = rw h refl
find-put_other key other value (Fields.field k v rest) h = elim (Bool-cases (same key k)) [
  | inl e ↦
      let k' : same other k ≡ false =
        differ other k (λ p. different other key h (p ∙ sym (same→eq key k e))) in
      rw e (rw (h, k') refl)
  | inr e ↦ elim (Bool-cases (before key k)) [
    | inl b ↦ rw (e, b) (rw h refl)
    | inr b ↦ rw (e, b, find-put_other key other value rest h) refl
  ]
]
  where
    different : (xs ys : Text) → same xs ys ≡ false → xs ≢ ys
    different xs ys f p = let t : same xs ys ≡ true = ap (same xs) (sym p) ∙ same_refl xs in cc

source_fields :
    (o : Option Wallet) (own : Fields)
    → HasBalance o
    → (fields : Fields) × (put_source o own ≡ ok fields)
      × ((key : Text) → same key (codes "sourceWallet") ≡ false → find key fields ≡ find key own)
source_fields none own h = (own, refl, λ key n. refl)
source_fields (some w) own (balance, read) = (
  put (codes "sourceWallet") (wallet_to_json w balance) own,
  rw read refl,
  λ key n. find-put_other (codes "sourceWallet") key (wallet_to_json w balance) own n,
)

find-put_remainder :
    (o : Option Wallet) (own : Fields) (key : Text)
    → same key (codes "remainderWallet") ≡ false
    → find key (put_remainder o own) ≡ find key own
find-put_remainder none own key n = refl
find-put_remainder (some w) own key n =
    find-put_other (codes "remainderWallet") key (wallet_to_json w (pos 0)) own n

-- The object, with the wallets that come after the molecule's own fields.
wallets_fields :
    (m : Molecule)
    → HasBalance m.source_wallet
    → (fields : Fields) × (molecule_to_json m ≡ ok (Json.object fields))
      × ((key : Text)
          → same key (codes "sourceWallet") ≡ false
          → same key (codes "remainderWallet") ≡ false
          → find key fields ≡ find key (molecule_fields m))
unfolding molecule_to_json
wallets_fields m h =
    let (sourced, run, finds) = source_fields m.source_wallet (molecule_fields m) h in
    (
      put_remainder m.remainder_wallet sourced,
      rw run refl,
      λ key n k. find-put_remainder m.remainder_wallet sourced key k ∙ finds key n,
    )

-- A molecule whose fields can be read back: the atoms are, the time has 64 bits, the balance is a number.
pub record IsWireMolecule (m : Molecule) : Type 0 where
  pub wire_atoms : All IsWireAtom m.atoms
  pub bounded_time : magnitude m.created_at < 2 ^ 63
  pub readable_balance : HasBalance m.source_wallet

module _ (js : JsonText) (exact : IsExactText js) (now : ℤ) where
  -- Reading an object by what stands under the six keys.
  molecule_from_json-finds :
      (m : Molecule) (fields : Fields)
      → find (codes "molecularHash") fields ≡ some (Json.text m.molecular_hash)
      → find (codes "cellSlug") fields ≡ some (nullable m.cell_slug)
      → find (codes "bundle") fields ≡ some (Json.text m.bundle)
      → find (codes "status") fields ≡ some (nullable m.status)
      → find (codes "atoms") fields ≡ some (Json.array (atoms_to_json m.atoms))
      → find (codes "createdAt") fields ≡ some (Json.text (to_string m.created_at))
      → All IsWireAtom m.atoms
      → magnitude m.created_at < 2 ^ 63
      → molecule_from_json js now (Json.object fields)
        ≡ ok (record m { source_wallet = none; remainder_wallet = none })
  unfolding molecule_from_json
  molecule_from_json-finds m fields eh es eb et ea ec atoms time =
      rw (eh, es, eb, et, ea, ec)
        (rw
          (
            exact.get_string-text m.molecular_hash,
            exact.get_string-text m.bundle,
            exact.get_string-text (to_string m.created_at),
          )
          (rw
            (
              nullable_at-nullable js exact m.cell_slug,
              nullable_at-nullable js exact m.status,
              atoms_from-atoms js exact now m.atoms atoms,
              strtoll-to_string m.created_at time,
            )
            (rw (or_empty-kept js m.cell_slug, or_empty-kept js m.status) refl)))

  -- `check` does not read the wallets.
  check-wallets :
      (lib : Libraries) (f : Floats) (m : Molecule)
      → check lib f (record m { source_wallet = none; remainder_wallet = none }) ≡ check lib f m
  unfolding check verify_continu_id verify_molecular_hash verify_ots token_valid
      verify_token_isotope_v
  check-wallets lib f m = refl

  -- A molecule whose atoms are as this client builds them (ASCII texts, position, address and isotope not empty, times
  -- of 64 bits, indices of 32, no null metas), with a time of 64 bits and a readable balance in the source wallet:
  -- toJson makes an object, jsonToObject reads it as the same molecule without the wallets, whatever the other fields
  -- are, and `check` says of what was read what it says of the molecule. Each atom is printed and parsed on the way.
  pub molecule_from_json-to_json :
      (lib : Libraries) (f : Floats) (m : Molecule)
      → IsWireMolecule m
      → (j : Json) × (read : Molecule) × (molecule_to_json m ≡ ok j)
        × (molecule_from_json js now j ≡ ok read)
        × (read ≡ record m { source_wallet = none; remainder_wallet = none })
        × (check lib f read ≡ check lib f m)
  unfolding molecule_fields find put before
  molecule_from_json-to_json lib f m h =
      let (fields, run, finds) = wallets_fields m h.readable_balance in
      (
        Json.object fields,
        record m { source_wallet = none; remainder_wallet = none },
        run,
        molecule_from_json-finds m fields (finds (codes "molecularHash") refl refl)
            (finds (codes "cellSlug") refl refl) (finds (codes "bundle") refl refl)
            (finds (codes "status") refl refl) (finds (codes "atoms") refl refl)
            (finds (codes "createdAt") refl refl) h.wire_atoms h.bounded_time,
        refl,
        check-wallets lib f m,
      )
