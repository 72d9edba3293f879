-- ===== src/Atom.antt =====
-- `Atom` of src/Atom.h and its molecular hash in src/Atom.cpp.
pub mod Order
pub mod Digest
use knish_io_client_cpp.Base.{
  ℕ, suc, ◌+◌, ◌-◌, ◌≤◌, Bool, true, false, not, ◌&&◌, ◌||◌, List, [], ◌∷◌, ◌++◌, map, arith, ltb,
  leb, ◌==◌, if◌then◌else◌, length, is_empty, all, replicate, concat, Text, codes, Result, ok, err,
  ◌>>=◌, ◌>>◌, Option, none, some,
}
use knish_io_client_cpp.Base.Int.{ℤ, pos, ltb_ℤ}
use knish_io_client_cpp.Base.Decimal.{decimal, to_string}
use knish_io_client_cpp.Json.{Json, items, json_array, Fields}
use knish_io_client_cpp.Libraries.{Libraries}
use knish_io_client_cpp.Hash.{shake256}
use knish_io_client_cpp.Codec.Hex.{to_hex_string}
use knish_io_client_cpp.Radix.{charset_base_convert}

abbrev pub Meta : Type 0
Meta = List (Text × Text)

-- The bits of `parsedEmpty`.
pub record ParsedEmpty : Type 0 where
  pub empty_value : Bool
  pub empty_batch_id : Bool
  pub empty_meta_type : Bool
  pub empty_meta_id : Bool

pub record Atom : Type 0 where
  pub position : Text
  pub wallet_address : Text
  pub isotope : Text
  pub token : Text
  pub value : Text
  pub batch_id : Text
  pub meta_type : Text
  pub meta_id : Text
  pub meta : Meta
  pub ots_fragment : Text
  pub created_at : ℤ
  pub index : ℤ
  pub version : Option Text
  pub null_meta : List (ℕ × Text)
  pub parsed_empty : ParsedEmpty

-- `std::stable_sort` by a key: what is equal keeps its order.
module _ {A : Type 0} where
  unfoldable pub insert_by_key : ℤ × A → List (ℤ × A) → List (ℤ × A)
  insert_by_key (k, a) [] = (k, a) ∷ []
  insert_by_key (k, a) ((j, b) ∷ sorted) =
      let rest = insert_by_key (k, a) sorted in
      if ltb_ℤ j k then (j, b) ∷ rest else (k, a) ∷ (j, b) ∷ sorted

  unfoldable pub stable_sort : List (ℤ × A) → List (ℤ × A)
  unfolding insert_by_key
  stable_sort [] = []
  stable_sort (e ∷ l) = insert_by_key e (stable_sort l)

-- `field`, `entry` and `metaItem` of `version4ViewJson`.
abbrev field : Text → Json
field s = if is_empty s then Json.null else Json.text s

abbrev entry : Text → Json → Json
entry key value = Json.object (Fields.field key value Fields.end)

abbrev meta_item : Text → Json → Json
meta_item key value =
    json_array (entry (codes "key") (Json.text key) ∷ entry (codes "value") value ∷ [])

abbrev optional : Bool → Text → Json
optional parsed_empty s = if parsed_empty then Json.text s else field s

-- Null items whose parsed position is reached, and those that wait. `size` counts the items so far.
unfoldable pub due_nulls : ℕ → List (ℕ × Text) → List Json × List (ℕ × Text)
due_nulls size [] = ([], [])
due_nulls size ((at, key) ∷ nulls) =
    let (placed, rest) = due_nulls (size + 1) nulls in
    if leb at size then (meta_item key Json.null ∷ placed, rest) else ([], (at, key) ∷ nulls)

-- The meta pairs with the null items back at their parsed positions.
unfoldable pub view_meta : ℕ → Meta → List (ℕ × Text) → List Json
unfolding due_nulls
view_meta size [] nulls = map (λ n. meta_item n.1 Json.null) nulls
view_meta size ((key, value) ∷ meta) nulls =
    let (placed, rest) = due_nulls size nulls in
    placed ++ (meta_item key (Json.text value) ∷ view_meta (size + length placed + 1) meta rest)

unfoldable pub view_atom : Atom → Json
unfolding view_meta to_string
view_atom atom = json_array (
    entry (codes "batchId") (optional atom.parsed_empty.empty_batch_id atom.batch_id)
    ∷ entry (codes "createdAt") (Json.text (to_string atom.created_at))
    ∷ entry (codes "index") (Json.number atom.index)
    ∷ entry (codes "isotope") (field atom.isotope)
    ∷ entry (codes "meta") (json_array (view_meta 0 atom.meta atom.null_meta))
    ∷ entry (codes "metaId") (optional atom.parsed_empty.empty_meta_id atom.meta_id)
    ∷ entry (codes "metaType") (optional atom.parsed_empty.empty_meta_type atom.meta_type)
    ∷ entry (codes "position") (field atom.position)
    ∷ entry (codes "token") (field atom.token)
    ∷ entry (codes "value") (optional atom.parsed_empty.empty_value atom.value)
    ∷ entry (codes "version") (elim atom.version [ none ↦ Json.null | some v ↦ Json.text v ])
    ∷ entry (codes "walletAddress") (field atom.wallet_address)
    ∷ [])

-- An optional field of the legacy sponge: appended when it is not empty.
abbrev unless_empty : Text → Text
unless_empty s = if is_empty s then [] else s

unfoldable pub sponge_atom : ℕ → Atom → Text
unfolding to_string
sponge_atom count atom =
    decimal count
    ++ (atom.position
        ++ (atom.wallet_address
            ++ (atom.isotope
                ++ (unless_empty atom.token
                    ++ (unless_empty atom.value
                        ++ (unless_empty atom.batch_id
                            ++ (unless_empty atom.meta_type
                                ++ (unless_empty atom.meta_id
                                    ++ (concat (map (λ kv. kv.0 ++ kv.1) atom.meta)
                                        ++ to_string atom.created_at)))))))))

abbrev pub has_version : Atom → Bool
has_version a = elim a.version [ none ↦ false | some v ↦ true ]

module _ (lib : Libraries) where
  unfoldable pub version4_view_json : List Atom → Result Text
  version4_view_json atoms =
      lib.dump (json_array (map (λ e. view_atom e.1) (stable_sort (map (λ a. (a.index, a)) atoms))))

  unfoldable pub hash_atoms : List Atom → Result (List ℕ)
  hash_atoms atoms =
      if not (is_empty atoms) && all has_version atoms
      then (version4_view_json atoms >>= λ view. shake256 lib view 256)
      else shake256 lib (concat (map (sponge_atom (length atoms)) atoms)) 256

  unfoldable pub hash_atoms_hex : List Atom → Result Text
  hash_atoms_hex atoms = hash_atoms atoms >>= λ hash. ok (to_hex_string hash)

  unfoldable pub hash_atoms_base17 : List Atom → Result Text
  hash_atoms_base17 atoms = do
    hash_hex ← hash_atoms_hex atoms
    converted ← charset_base_convert hash_hex 16 17 (some (codes "0123456789abcdefg"))
    ok (
        replicate (if ltb (length converted) 64 then 64 - length converted else 0) b'0'
        ++ converted)
