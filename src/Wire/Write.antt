-- ===== src/Wire/Write.antt =====
-- `Molecule::toJson` of src/Molecule.cpp.
use knish_io_client_cpp.Base.{
  List, [], ◌∷◌, if◌then◌else◌, is_empty, Text, codes, Result, ok, ◌>>=◌, Option, none, some,
}
use knish_io_client_cpp.Base.Int.{ℤ, pos}
use knish_io_client_cpp.Base.Decimal.{to_string}
use knish_io_client_cpp.Base.Integers.{stoi}
use knish_io_client_cpp.Json.{Json, Items, Fields, put}
use knish_io_client_cpp.Atom.{Atom, Meta}
use knish_io_client_cpp.Wallet.{Wallet}
use knish_io_client_cpp.Molecule.{Molecule}
use knish_io_client_cpp.Storage.Libraries.{JsonText}

-- Empty text is written as `null`.
unfoldable pub nullable : Text → Json
nullable s = if is_empty s then Json.null else Json.text s

unfoldable pub meta_to_json : Meta → Items
meta_to_json [] = Items.nil
meta_to_json ((key, value) ∷ meta) =
    Items.cons
      (Json.object
        (put (codes "value") (Json.text value) (put (codes "key") (Json.text key) Fields.end)))
      (meta_to_json meta)

abbrev pub put_version : Option Text → Fields → Fields
put_version none j = j
put_version (some version) j = put (codes "version") (Json.text version) j

unfoldable pub atom_to_json : Atom → Json
atom_to_json a = Json.object (
    put_version a.version (
      put (codes "index") (Json.number a.index) (
        put (codes "createdAt") (Json.text (to_string a.created_at)) (
          put (codes "otsFragment") (Json.text a.ots_fragment) (
            put (codes "meta") (Json.array (meta_to_json a.meta)) (
              put (codes "metaId") (nullable a.meta_id) (
                put (codes "metaType") (nullable a.meta_type) (
                  put (codes "batchId") (nullable a.batch_id) (
                    put (codes "value") (nullable a.value) (
                      put (codes "token") (Json.text a.token) (
                        put (codes "isotope") (Json.text a.isotope) (
                          put (codes "walletAddress") (Json.text a.wallet_address)
                            (put (codes "position") (Json.text a.position) Fields.end)))))))))))))

unfoldable pub atoms_to_json : List Atom → Items
atoms_to_json [] = Items.nil
atoms_to_json (a ∷ atoms) = Items.cons (atom_to_json a) (atoms_to_json atoms)

abbrev pub wallet_to_json : Wallet → ℤ → Json
wallet_to_json w balance = Json.object (
    put (codes "balance") (Json.number balance) (
      put (codes "token") (Json.text w.token) (
        put (codes "position") (Json.text w.position)
          (put (codes "address") (Json.text w.address) Fields.end))))

abbrev pub put_source : Option Wallet → Fields → Result Fields
put_source none j = ok j
put_source (some w) j = (if is_empty w.balance then ok (pos 0) else stoi w.balance) >>= λ balance.
    ok (put (codes "sourceWallet") (wallet_to_json w balance) j)

abbrev pub put_remainder : Option Wallet → Fields → Fields
put_remainder none j = j
put_remainder (some w) j = put (codes "remainderWallet") (wallet_to_json w (pos 0)) j

unfoldable pub molecule_fields : Molecule → Fields
molecule_fields m = put (codes "atoms") (Json.array (atoms_to_json m.atoms)) (
    put (codes "createdAt") (Json.text (to_string m.created_at)) (
      put (codes "status") (nullable m.status) (
        put (codes "bundle") (Json.text m.bundle) (
          put (codes "cellSlug") (nullable m.cell_slug)
            (put (codes "molecularHash") (Json.text m.molecular_hash) Fields.end)))))

-- The object, before it is printed.
unfoldable pub molecule_to_json : Molecule → Result Json
molecule_to_json m = put_source m.source_wallet (molecule_fields m) >>= λ j.
    ok (Json.object (put_remainder m.remainder_wallet j))

unfoldable pub to_json : JsonText → Molecule → Result Text
to_json js m = molecule_to_json m >>= js.dump
