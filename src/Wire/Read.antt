-- ===== src/Wire/Read.antt =====
-- `Atom::jsonToObject` of src/Atom.cpp and `Molecule::jsonToObject` of src/Molecule.cpp. The time that the
-- constructors read is an argument.
use knish_io_client_cpp.Base.{
  ℕ, ◌+◌, Bool, false, ◌||◌, List, [], ◌∷◌, ◌++◌, length, if◌then◌else◌, is_empty, Text, codes,
  Result, ok, err, ◌>>=◌, ◌>>◌, require, not, atoms_not_found, out_of_range, Option, none, some,
  ◌==◌, ◌-◌, ◌^◌,
}
use knish_io_client_cpp.Base.Int.{ℤ, pos, negsuc}
use knish_io_client_cpp.Base.Integers.{wrap, parse_integer, skip_spaces}
use knish_io_client_cpp.Json.{Json, Items, Fields, find}
use knish_io_client_cpp.Atom.{Atom, Meta}
use knish_io_client_cpp.Molecule.{Molecule}
use knish_io_client_cpp.Storage.Libraries.{JsonText}

-- `j.find(key)`: in what is not an object there is nothing.
abbrev pub find_in : Text → Json → Option Json
find_in key (Json.object fields) = find key fields
find_in key j = none

-- What a range-based loop over `j` visits.
unfoldable pub item_list : Items → List Json
item_list Items.nil = []
item_list (Items.cons j js) = j ∷ item_list js

unfoldable pub value_list : Fields → List Json
value_list Fields.end = []
value_list (Fields.field key value fields) = value ∷ value_list fields

abbrev pub visited : Json → List Json
visited Json.null = []
visited (Json.array js) = item_list js
visited (Json.object fields) = value_list fields
visited j = j ∷ []

abbrev starts_negative : Text → Bool
starts_negative [] = false
starts_negative (c ∷ s) = c == b'-'

-- `std::strtoll`, which does not throw: nothing read is 0, and what does not fit is the nearest end of the range.
abbrev pub nearest : Bool → Result ℤ → ℤ
nearest negative (ok n) = n
nearest negative (err out_of_range) = if negative then negsuc (2 ^ 63 - 1) else pos (2 ^ 63 - 1)
nearest negative (err thrown) = pos 0

unfoldable pub strtoll : Text → ℤ
strtoll s = nearest (starts_negative (skip_spaces s)) (parse_integer 64 s)

module _ (js : JsonText) where
  -- A text that is left empty when the key is absent.
  abbrev pub text_at : Option Json → Result Text
  text_at none = ok []
  text_at (some j) = js.get_string j

  -- A text that may be `null`: none where it is absent or null.
  abbrev pub nullable_at : Option Json → Result (Option Text)
  nullable_at none = ok none
  nullable_at (some Json.null) = ok none
  nullable_at (some j) = js.get_string j >>= λ s. ok (some s)

  abbrev pub or_empty : Option Text → Text
  or_empty none = []
  or_empty (some s) = s

  -- Whether a text was there and was empty.
  abbrev pub was_empty : Option Text → Bool
  was_empty none = false
  was_empty (some s) = is_empty s

  abbrev pub scalar_text : Json → Result Text
  scalar_text (Json.text s) = ok s
  scalar_text j = js.dump j

  -- One item of `meta`: the pairs so far, and the null items with their positions.
  abbrev pub meta_entry :
      Meta × List (ℕ × Text) → Option Json → Option Json → Result (Meta × List (ℕ × Text))
  meta_entry read none value = ok read
  meta_entry read (some key) none = ok read
  meta_entry (pairs, nulls) (some key) (some Json.null) =
      js.get_string key >>= λ k. ok (pairs, nulls ++ ((length pairs + length nulls, k) ∷ []))
  meta_entry (pairs, nulls) (some key) (some value) =
      js.get_string key >>= λ k. scalar_text value >>= λ v. ok (pairs ++ ((k, v) ∷ []), nulls)

  unfoldable pub meta_from : List Json → Meta × List (ℕ × Text) → Result (Meta × List (ℕ × Text))
  meta_from [] read = ok read
  meta_from (j ∷ items) read =
      meta_entry read (find_in (codes "key") j) (find_in (codes "value") j) >>= λ next.
      meta_from items next

  abbrev pub meta_at : Option Json → Result (Meta × List (ℕ × Text))
  meta_at none = ok ([], [])
  meta_at (some j) = meta_from (visited j) ([], [])

  abbrev pub created_at_of : ℤ → Option Json → Result ℤ
  created_at_of now none = ok now
  created_at_of now (some (Json.number n)) = ok (wrap 64 n)
  created_at_of now (some j) = js.get_string j >>= λ s. ok (strtoll s)

  abbrev pub index_of : Option Json → ℤ
  index_of (some (Json.number n)) = wrap 32 n
  index_of other = pos 0

  abbrev pub version_of : Option Json → Result (Option Text)
  version_of (some (Json.text s)) = ok (some s)
  version_of (some (Json.number n)) = js.dump (Json.number n) >>= λ s. ok (some s)
  version_of (some (Json.real r)) = js.dump (Json.real r) >>= λ s. ok (some s)
  version_of other = ok none

  unfoldable pub atom_from_json : ℤ → Json → Result Atom
  atom_from_json now j = do
    position ← text_at (find_in (codes "position") j)
    wallet_address ← text_at (find_in (codes "walletAddress") j)
    isotope ← text_at (find_in (codes "isotope") j)
    token ← text_at (find_in (codes "token") j)
    value ← nullable_at (find_in (codes "value") j)
    batch_id ← nullable_at (find_in (codes "batchId") j)
    meta_type ← nullable_at (find_in (codes "metaType") j)
    meta_id ← nullable_at (find_in (codes "metaId") j)
    (meta, null_meta) ← meta_at (find_in (codes "meta") j)
    ots_fragment ← nullable_at (find_in (codes "otsFragment") j)
    created_at ← created_at_of now (find_in (codes "createdAt") j)
    version ← version_of (find_in (codes "version") j)
    ok (record {
      position = position;
      wallet_address = wallet_address;
      isotope = isotope;
      token = token;
      value = or_empty value;
      batch_id = or_empty batch_id;
      meta_type = or_empty meta_type;
      meta_id = or_empty meta_id;
      meta = meta;
      ots_fragment = or_empty ots_fragment;
      created_at = created_at;
      index = index_of (find_in (codes "index") j);
      version = version;
      null_meta = null_meta;
      parsed_empty = record {
        empty_value = was_empty value;
        empty_batch_id = was_empty batch_id;
        empty_meta_type = was_empty meta_type;
        empty_meta_id = was_empty meta_id;
      };
    })

  unfoldable pub atom_json_to_object : ℤ → Text → Result Atom
  atom_json_to_object now s = js.parse s >>= atom_from_json now

  -- The loop over the atoms: each is printed, and parsed again.
  unfoldable pub atoms_from : ℤ → List Json → Result (List Atom)
  atoms_from now [] = ok []
  atoms_from now (j ∷ items) = do
    printed ← js.dump j
    a ← atom_json_to_object now printed
    require (not (is_empty a.position || is_empty a.wallet_address || is_empty a.isotope))
        atoms_not_found
    atoms ← atoms_from now items
    ok (a ∷ atoms)

  abbrev pub atoms_at : ℤ → Option Json → Result (List Atom)
  atoms_at now none = ok []
  atoms_at now (some j) = atoms_from now (visited j)

  abbrev pub molecule_created_at : ℤ → Option Json → Result ℤ
  molecule_created_at now none = ok now
  molecule_created_at now (some j) = js.get_string j >>= λ s. ok (strtoll s)

  unfoldable pub molecule_from_json : ℤ → Json → Result Molecule
  molecule_from_json now j = do
    molecular_hash ← text_at (find_in (codes "molecularHash") j)
    cell_slug ← nullable_at (find_in (codes "cellSlug") j)
    bundle ← text_at (find_in (codes "bundle") j)
    status ← nullable_at (find_in (codes "status") j)
    atoms ← atoms_at now (find_in (codes "atoms") j)
    created_at ← molecule_created_at now (find_in (codes "createdAt") j)
    ok (record {
      molecular_hash = molecular_hash;
      cell_slug = or_empty cell_slug;
      bundle = bundle;
      status = or_empty status;
      atoms = atoms;
      created_at = created_at;
      source_wallet = none;
      remainder_wallet = none;
    })

  unfoldable pub json_to_object : ℤ → Text → Result Molecule
  json_to_object now s = js.parse s >>= molecule_from_json now
