-- ===== src/Transfers/Fusion.antt =====
-- `Molecule::initTokenFusion` of src/Molecule.cpp. `random_string` gives the texts of `randomString(64)`, by
-- the number of the call.
use knish_io_client_cpp.Base.{
  ℕ, ◌-◌, not, List, [], ◌∷◌, map, any, ltb, if◌then◌else◌, length, is_empty, take, replicate, Text,
  codes, same, Result, ok, err, ◌>>=◌, ◌>>◌, require, knish_io_exception,
}
use knish_io_client_cpp.Base.Int.{ℤ, pos, ◌-ℤ◌}
use knish_io_client_cpp.Base.Decimal.{to_string}
use knish_io_client_cpp.Base.Integers.{wrap, stoll}
use knish_io_client_cpp.Json.{Json, json_array, Fields}
use knish_io_client_cpp.Libraries.{Libraries}
use knish_io_client_cpp.Atom.{Atom}
use knish_io_client_cpp.Wallet.{Wallet, TokenUnit}
use knish_io_client_cpp.Units.{unit_triple, units_meta, id_in_list, split}
use knish_io_client_cpp.Molecule.{Molecule, attempt}
use knish_io_client_cpp.Builders.{Clock, new_atom, push, clear_hash}

-- `std::find_if` by the id, which throws where there is none.
unfoldable pub find_unit : List TokenUnit → Text → Result TokenUnit
find_unit [] id = err knish_io_exception
find_unit (unit ∷ units) id =
    let rest = find_unit units id in if same unit.id id then ok unit else rest

unfoldable pub fused_units : List TokenUnit → List Text → Result (List TokenUnit)
fused_units units [] = ok []
fused_units units (id ∷ ids) = do
  unit ← find_unit units id
  rest ← fused_units units ids
  ok (unit ∷ rest)

abbrev pub zero_bundle : Text
zero_bundle = replicate 64 b'0'

module _ (lib : Libraries) (clock : Clock) (random_string : ℕ → Text) where
  -- The new unit, with the triples of the units that it is made of.
  unfoldable pub new_unit_json : Text → List TokenUnit → Result Text
  new_unit_json id fused =
      let metas =
        Json.object (
          Fields.field (codes "fusedTokenUnits") (json_array (map unit_triple fused)) Fields.end) in
      lib.dump (json_array (json_array (Json.text id ∷ Json.text id ∷ metas ∷ []) ∷ []))

  unfoldable pub checked_fusion : Wallet → List Text → Text → Result (List TokenUnit × Text × ℤ)
  checked_fusion source ids new_id = do
    require (not (ltb (length ids) 2)) knish_io_exception
    fused ← fused_units source.token_units ids
    require (not (any (λ unit. same unit.id new_id) source.token_units)) knish_io_exception
    unit_json ← new_unit_json new_id fused
    balance ← stoll source.balance
    ok (fused, unit_json, balance)

  unfoldable pub init_token_fusion :
      Molecule → Wallet → Wallet → Wallet → List Text → Text → Result (List Atom) × Molecule
  init_token_fusion m source recipient remainder ids new_id =
      attempt m (checked_fusion source ids new_id) (λ r.
        let (fused, unit_json, balance) = r in
        let (sent, kept) = split (λ unit. id_in_list unit.id ids) source.token_units in
        let burned = take (length fused - 1) fused in
        let batch =
          λ (call : ℕ). if not (is_empty source.batch_id) then random_string call else [] in
        let wallet_bundle = codes "walletBundle" in
        let cleared = clear_hash m in
        attempt cleared (units_meta lib sent) (λ sent_meta.
          let m1 = push cleared (
            new_atom clock source.position source.address (codes "V") source.token
              (b'-' ∷ source.balance) source.batch_id [] [] sent_meta 0) in
          attempt m1 (units_meta lib burned) (λ burned_meta.
            let m2 = push m1 (
              new_atom clock [] [] (codes "V") source.token
                (to_string (pos (length fused) -ℤ pos 1)) (batch 0) wallet_bundle zero_bundle
                burned_meta 1) in
            let m3 = push m2 (
              new_atom clock recipient.position recipient.address (codes "F") source.token
                (codes "1") (batch 1) wallet_bundle recipient.bundle
                ((codes "tokenUnits", unit_json) ∷ []) 2) in
            attempt m3 (units_meta lib kept) (λ kept_meta.
              let m4 = push m3 (
                new_atom clock remainder.position remainder.address (codes "V") source.token
                  (to_string (wrap 64 (balance -ℤ pos (length fused)))) source.batch_id
                  wallet_bundle source.bundle kept_meta 3) in
              (ok m4.atoms, m4)))))
