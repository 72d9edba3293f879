-- ===== src/Tests/Refused.antt =====
-- What happens where the library cannot print a text: 255 is no byte of UTF-8.
use knish_io_client_cpp.Base.{◌≡◌, refl, [], ◌∷◌, codes, err, json_error, some}
use knish_io_client_cpp.Base.Int.{pos}
use knish_io_client_cpp.Json.{is_plain}
use knish_io_client_cpp.Atom.{
  Atom, hash_atoms_base17, hash_atoms_hex, hash_atoms, version4_view_json, view_atom, view_meta,
  stable_sort, insert_by_key,
}
use knish_io_client_cpp.Units.{units_meta, units_json, unit_triple}
use knish_io_client_cpp.Wallet.{Wallet}
use knish_io_client_cpp.Transfers.{init_value}
use knish_io_client_cpp.Tests.{test_libraries, test_molecule, test_atom, zeros}
use knish_io_client_cpp.Tests.Building.{test_wallet}

abbrev broken_atom : Atom
broken_atom = record (test_atom zeros) { version = some (codes "4"); meta_id = 255 ∷ [] }

broken_hash : hash_atoms_base17 test_libraries (broken_atom ∷ []) ≡ err json_error
unfolding hash_atoms_base17 hash_atoms_hex hash_atoms version4_view_json view_atom view_meta
    stable_sort insert_by_key is_plain
broken_hash = refl

abbrev broken_wallet : Wallet
broken_wallet = record (test_wallet (codes "5")) {
  token_units = record { id = 255 ∷ []; name = []; metas = [] } ∷ [];
}

-- The molecular hash is cleared, and no atom is pushed.
broken_transfer :
    init_value test_libraries
      (λ i. pos i)
      test_molecule
      broken_wallet
      (test_wallet [])
      (test_wallet [])
      (codes "1")
    ≡ (err json_error, record test_molecule { molecular_hash = [] })
unfolding init_value units_meta units_json unit_triple is_plain
broken_transfer = refl
