-- ===== src/Tests/Building.antt =====
-- Runs of the theorems on the functions that build molecules.
use knish_io_client_cpp.Base.{
  ◌≡◌, refl, true, false, List, [], ◌∷◌, ◌++◌, map, arith, any, All, Text, codes, ok, none,
}
use mathlib.Core.List.{Permᴰ}
use knish_io_client_cpp.Base.Int.{pos}
use knish_io_client_cpp.Base.Decimal.{decimal}
use knish_io_client_cpp.Base.Integers.{parse_integer}
use knish_io_client_cpp.Base.Numerals.{parse_integer-decimal}
use knish_io_client_cpp.Atom.{Atom}
use knish_io_client_cpp.Wallet.{TokenUnit, Wallet}
use knish_io_client_cpp.Json.{is_plain, before, put}
use knish_io_client_cpp.Units.{
  PrintsUnits, units_meta, units_json, unit_triple, split_units, split_units_multi, id_in_list,
}
use knish_io_client_cpp.Units.Split.{split_units-partition, split_units_multi-partition}
use knish_io_client_cpp.Molecule.{Molecule, verify_continu_id}
use knish_io_client_cpp.Builders.{
  init_token_creation, init_token_replenish, init_meta, init_authorization, init_wallet_creation,
  init_shadow_wallet_claim,
}
use knish_io_client_cpp.Builders.ContinuId.{builders-verify_continu_id}
use knish_io_client_cpp.Transfers.{
  rates_meta, put_all, init_value, init_values, init_deposit_buffer, init_withdraw_buffer,
}
use knish_io_client_cpp.Transfers.Sums.{values_sum, init_value-conserves}
use knish_io_client_cpp.Transfers.Recipients.{init_values-conserves}
use knish_io_client_cpp.Transfers.Buffers.{
  init_deposit_buffer-conserves, init_withdraw_buffer-conserves,
}
use knish_io_client_cpp.Tests.{test_libraries, test_molecule}

abbrev unit_of : Text → TokenUnit
unit_of id = record { id = id; name = codes "unit"; metas = [] }

abbrev pub test_wallet : Text → Wallet
test_wallet balance = record {
  position = codes "0a";
  token = codes "COIN";
  key = [];
  address = codes "cd";
  balance = balance;
  batch_id = [];
  molecules = [];
  bundle = codes "ef";
  token_units = unit_of (codes "1") ∷ unit_of (codes "2") ∷ unit_of (codes "3") ∷ [];
  privkey = [];
  pubkey = [];
  mlkem_public_key = [];
  mlkem_private_key = [];
  mlkem_parameter_set = pos 1024;
  ots_version = pos 1;
}

pub test_wallet-PrintsUnits : (balance : Text) → PrintsUnits test_libraries (test_wallet balance)
unfolding units_meta units_json unit_triple is_plain
test_wallet-PrintsUnits balance = refl

parse_integer-decimal_example : parse_integer 32 (decimal 2147483647) ≡ ok (pos 2147483647)
parse_integer-decimal_example = parse_integer-decimal 32 2147483647 (omega arith)

init_value-conserves_example :
    (pushed : List Atom) × (after : Molecule) × (init_value test_libraries
        (λ i. pos i)
        test_molecule
        (test_wallet (decimal 1000))
        (test_wallet [])
        (test_wallet [])
        (decimal 250)
      ≡ (ok after.atoms, after))
    × (after.atoms ≡ test_molecule.atoms ++ pushed)
    × (values_sum pushed ≡ ok (pos 0))
init_value-conserves_example =
    init_value-conserves test_libraries (λ i. pos i) test_molecule (test_wallet (decimal 1000))
      (test_wallet []) (test_wallet []) 1000 250 refl (omega arith) (omega arith)
      (test_wallet-PrintsUnits (decimal 1000)) (test_wallet-PrintsUnits [])
      (test_wallet-PrintsUnits [])

init_values-conserves_example :
    (pushed : List Atom) × (after : Molecule) × (init_values test_libraries
        (λ i. pos i)
        test_molecule
        (test_wallet (decimal 1000))
        (test_wallet [] ∷ test_wallet [] ∷ [])
        (map decimal (250 ∷ 300 ∷ []))
        (test_wallet [])
      ≡ (ok after.atoms, after))
    × (after.atoms ≡ test_molecule.atoms ++ pushed)
    × (values_sum pushed ≡ ok (pos 0))
init_values-conserves_example =
    init_values-conserves test_libraries (λ i. pos i) test_molecule (test_wallet (decimal 1000))
      (test_wallet [] ∷ test_wallet [] ∷ []) (test_wallet []) 1000 (250 ∷ 300 ∷ []) refl refl
      (omega arith) (omega arith) (test_wallet-PrintsUnits (decimal 1000))
      (test_wallet-PrintsUnits []) (test_wallet-PrintsUnits [], (test_wallet-PrintsUnits [], tt))

builders-verify_continu_id_example :
    (verify_continu_id (
        init_token_creation
          (λ i. pos i)
          test_molecule
          (test_wallet [])
          (test_wallet [])
          (codes "5")
          [])
      ≡ true)
    × (verify_continu_id (
          (init_token_replenish test_libraries
            (λ i. pos i)
            test_molecule
            (test_wallet [])
            (test_wallet [])
            (codes "5")
            []).1)
        ≡ true)
    × (verify_continu_id
          (init_meta (λ i. pos i) test_molecule (test_wallet []) [] (codes "t") (codes "i"))
        ≡ true)
    × (verify_continu_id (init_authorization (λ i. pos i) test_molecule (test_wallet []) true)
        ≡ true)
    × (verify_continu_id
          (init_wallet_creation (λ i. pos i) test_molecule (test_wallet []) (test_wallet []) [])
        ≡ true)
    × (verify_continu_id
          (init_shadow_wallet_claim (λ i. pos i) test_molecule (test_wallet []) (test_wallet []))
        ≡ true)
unfolding units_meta
builders-verify_continu_id_example =
    builders-verify_continu_id test_libraries (λ i. pos i) test_molecule (test_wallet [])
      (test_wallet []) (codes "5") (codes "t") (codes "i") [] [] true refl

split_units-partition_example :
    Permᴰ
      ((split_units (test_wallet []) (codes "2" ∷ []) (test_wallet []) none).0.token_units
        ++ (split_units (test_wallet []) (codes "2" ∷ []) (test_wallet []) none).1.token_units)
      (test_wallet []).token_units
    × All
        (λ u. id_in_list u.id (codes "2" ∷ []) ≡ true)
        (split_units (test_wallet []) (codes "2" ∷ []) (test_wallet []) none).0.token_units
    × All
        (λ u. id_in_list u.id (codes "2" ∷ []) ≡ false)
        (split_units (test_wallet []) (codes "2" ∷ []) (test_wallet []) none).1.token_units
split_units-partition_example =
    split_units-partition (test_wallet []) (codes "2") [] (test_wallet []) none

split_units_multi-partition_example :
    Permᴰ
      ((split_units_multi
          (test_wallet [])
          ((codes "2" ∷ []) ∷ (codes "3" ∷ []) ∷ [])
          []
          (test_wallet [])).0.token_units
        ++ (split_units_multi
            (test_wallet [])
            ((codes "2" ∷ []) ∷ (codes "3" ∷ []) ∷ [])
            []
            (test_wallet [])).2.token_units)
      (test_wallet []).token_units
    × All
        (λ u. any (id_in_list u.id) ((codes "2" ∷ []) ∷ (codes "3" ∷ []) ∷ []) ≡ true)
        (split_units_multi
          (test_wallet [])
          ((codes "2" ∷ []) ∷ (codes "3" ∷ []) ∷ [])
          []
          (test_wallet [])).0.token_units
    × All
        (λ u. any (id_in_list u.id) ((codes "2" ∷ []) ∷ (codes "3" ∷ []) ∷ []) ≡ false)
        (split_units_multi
          (test_wallet [])
          ((codes "2" ∷ []) ∷ (codes "3" ∷ []) ∷ [])
          []
          (test_wallet [])).2.token_units
split_units_multi-partition_example =
    split_units_multi-partition (test_wallet []) ((codes "2" ∷ []) ∷ (codes "3" ∷ []) ∷ []) []
      (test_wallet []) refl

init_deposit_buffer-conserves_example :
    (pushed : List Atom) × (after : Molecule) × (init_deposit_buffer test_libraries
        (λ i. pos i)
        test_molecule
        (test_wallet (decimal 1000))
        (test_wallet [])
        (test_wallet [])
        (decimal 250)
        ((codes "USD", codes "2") ∷ [])
      ≡ (ok after.atoms, after))
    × (after.atoms ≡ test_molecule.atoms ++ pushed)
    × (values_sum pushed ≡ ok (pos 0))
unfolding rates_meta is_plain before put put_all
init_deposit_buffer-conserves_example =
    init_deposit_buffer-conserves test_libraries (λ i. pos i) test_molecule
      (test_wallet (decimal 1000)) (test_wallet []) (test_wallet []) 1000 250
      ((codes "USD", codes "2") ∷ []) refl (omega arith) (omega arith) refl

init_withdraw_buffer-conserves_example :
    (pushed : List Atom) × (after : Molecule) × (init_withdraw_buffer test_libraries
        (λ i. pos i)
        test_molecule
        (test_wallet (decimal 1000))
        (test_wallet [] ∷ test_wallet [] ∷ [])
        (map decimal (250 ∷ 300 ∷ []))
        (test_wallet [])
      ≡ (ok after.atoms, after))
    × (after.atoms ≡ test_molecule.atoms ++ pushed)
    × (values_sum pushed ≡ ok (pos 0))
init_withdraw_buffer-conserves_example =
    init_withdraw_buffer-conserves test_libraries (λ i. pos i) test_molecule
      (test_wallet (decimal 1000)) (test_wallet [] ∷ test_wallet [] ∷ []) (test_wallet []) 1000
      (250 ∷ 300 ∷ []) refl refl (omega arith) (omega arith)
      (test_wallet-PrintsUnits (decimal 1000))
