-- ===== src/Served/Client.antt =====
-- `servedToClient`, `verifyClient`, `fromServerData` and `verifyFromServerData` of src/Molecule.cpp.
pub mod Sound
use knish_io_client_cpp.Base.{
  ℕ, Bool, true, false, not, ◌||◌, ◌&&◌, List, [], ◌∷◌, any, if◌then◌else◌, is_empty, Text, codes,
  Result, ok, err, ◌>>=◌, ◌>>◌, require, Exception, invalid_argument, is_ok, Option, none, some,
}
use knish_io_client_cpp.Base.Int.{ℤ}
use knish_io_client_cpp.Base.Decimal.{to_string}
use knish_io_client_cpp.Base.Integers.{wrap}
use knish_io_client_cpp.Libraries.{Libraries}
use knish_io_client_cpp.Floats.{Floats}
use knish_io_client_cpp.Json.{Json, Items, Fields, put, find}
use knish_io_client_cpp.Molecule.{Molecule, verify_molecular_hash}
use knish_io_client_cpp.Check.{check}
use knish_io_client_cpp.Storage.Libraries.{JsonText}
use knish_io_client_cpp.Served.Timestamp.{to_signed_timestamp}
use knish_io_client_cpp.Wire.Read.{find_in, item_list, scalar_text, json_to_object}

abbrev pub text_or_null : Option Text → Json
text_or_null none = Json.null
text_or_null (some s) = Json.text s

unfoldable pub served_created_at : Json → Json
served_created_at (Json.number n) = Json.text (to_string (wrap 64 n))
served_created_at (Json.text s) = text_or_null (to_signed_timestamp s)
served_created_at value = Json.null

-- The entries of an object as `[{key, value}]`.
unfoldable pub entries : Fields → Items
entries Fields.end = Items.nil
entries (Fields.field key value rest) =
    Items.cons
      (Json.object (put (codes "value") value (put (codes "key") (Json.text key) Fields.end)))
      (entries rest)

abbrev pub meta_array : Json → Json
meta_array (Json.array items) = Json.array items
meta_array (Json.object fields) = Json.array (entries fields)
meta_array other = Json.array Items.nil

-- A `find` that passes over `null`.
abbrev pub not_null : Option Json → Option Json
not_null (some Json.null) = none
not_null other = other

abbrev pub member : Json → Text → Option Json
member served key = not_null (find_in key served)

abbrev pub copy_text : Option Json → Text → Fields → Fields
copy_text (some (Json.text s)) to fields = put to (Json.text s) fields
copy_text other to fields = fields

-- The loop over pairs of keys.
unfoldable pub copy_texts : Json → List (Text × Text) → Fields → Fields
copy_texts served [] fields = fields
copy_texts served ((from, to) ∷ keys) fields =
    copy_texts served keys (copy_text (member served from) to fields)

abbrev pub put_unless_null : Text → Json → Fields → Fields
put_unless_null key Json.null fields = fields
put_unless_null key value fields = put key value fields

abbrev pub put_created_at : Option Json → Fields → Fields
put_created_at none fields = fields
put_created_at (some value) fields =
    put_unless_null (codes "createdAt") (served_created_at value) fields

abbrev pub first_of : Option Json → Option Json → Option Json
first_of none other = other
first_of (some j) other = some j

abbrev pub put_index : Option Json → Fields → Fields
put_index (some (Json.number n)) fields = put (codes "index") (Json.number n) fields
put_index other fields = fields

abbrev pub put_version : Option Text → Option Json → Fields → Fields
put_version (some forced) served fields = put (codes "version") (Json.text forced) fields
put_version none none fields = fields
put_version none (some version) fields = put (codes "version") version fields

abbrev pub is_object : Json → Bool
is_object (Json.object fields) = true
is_object other = false

abbrev pub atom_keys : List (Text × Text)
atom_keys =
    (codes "position", codes "position")
    ∷ (codes "walletAddress", codes "walletAddress")
    ∷ (codes "isotope", codes "isotope")
    ∷ (codes "batchId", codes "batchId")
    ∷ (codes "metaType", codes "metaType")
    ∷ (codes "metaId", codes "metaId")
    ∷ (codes "otsFragment", codes "otsFragment")
    ∷ []

abbrev pub molecule_keys : List (Text × Text)
molecule_keys =
    (codes "bundleHash", codes "bundle")
    ∷ (codes "molecularHash", codes "molecularHash")
    ∷ (codes "cellSlug", codes "cellSlug")
    ∷ (codes "status", codes "status")
    ∷ []

module _ (js : JsonText) where
  abbrev pub parsed_meta : Result Json → Json
  parsed_meta (ok j) = meta_array j
  parsed_meta (err thrown) = Json.array Items.nil

  unfoldable pub served_meta : Option Json → Json
  served_meta none = Json.array Items.nil
  served_meta (some (Json.text s)) = parsed_meta (js.parse s)
  served_meta (some j) = meta_array j

  abbrev pub put_value : Option Json → Fields → Result Fields
  put_value none fields = ok fields
  put_value (some value) fields =
      scalar_text js value >>= λ text. ok (put (codes "value") (Json.text text) fields)

  unfoldable pub served_atom : Option Text → Json → Result Json
  served_atom forced served = do
    require (is_object served) invalid_argument
    let token = first_of (member served (codes "tokenSlug")) (member served (codes "token"))
    valued ←
        put_value (member served (codes "value"))
          (copy_text token (codes "token") (copy_texts served atom_keys Fields.end))
    let stamped =
        put_created_at (member served (codes "createdAt"))
          (put_index (member served (codes "index")) valued)
    let versioned = put_version forced (member served (codes "version")) stamped
    ok (
        Json.object
          (put (codes "meta") (served_meta (member served (codes "metasJson"))) versioned))

  unfoldable pub served_atoms : Option Text → Items → Result Items
  served_atoms forced Items.nil = ok Items.nil
  served_atoms forced (Items.cons j items) = do
    a ← served_atom forced j
    rest ← served_atoms forced items
    ok (Items.cons a rest)

  abbrev pub with_atoms : Option Text → Json → Option Json → Result Json
  with_atoms forced served (some (Json.array items)) = do
    let molecule =
        put_created_at (member served (codes "createdAt"))
          (copy_texts served molecule_keys Fields.end)
    atoms ← served_atoms forced items
    ok (Json.object (put (codes "atoms") (Json.array atoms) molecule))
  with_atoms forced served other = err invalid_argument

  unfoldable pub served_to_client : Json → Option Text → Result Json
  served_to_client served forced =
      require (is_object served) invalid_argument
      >> with_atoms forced served (member served (codes "atoms"))

  unfoldable pub molecule_of_served : ℤ → Json → Option Text → Result Molecule
  molecule_of_served now served forced =
      served_to_client served forced >>= js.dump >>= json_to_object js now

  unfoldable pub from_server_data : ℤ → Text → Result Molecule
  from_server_data now served_json =
      js.parse served_json >>= λ served. molecule_of_served now served none

-- The error of a served molecule, in place of its message.
pub data ServedError : Type 0 where
  hash_mismatch not_json : ServedError
  thrown : Exception → ServedError

pub record ServedVerification : Type 0 where
  pub molecular_hash : Option Text
  pub verified : Bool
  pub error : Option ServedError

abbrev pub some_hash : Text → Option Text
some_hash h = if is_empty h then none else some h

module _ (js : JsonText) (lib : Libraries) (f : Floats) (now : ℤ) where
  abbrev pub checked : Option Text → Result (Unit {0}) → ServedVerification × Bool
  checked h (ok done) = (record { molecular_hash = h; verified = true; error = none }, false)
  checked h (err e) =
      (record { molecular_hash = h; verified = false; error = some (thrown e) }, false)

  abbrev pub hash_checked : Molecule → Result Bool → ServedVerification × Bool
  hash_checked m (err e) = (
    record {
      molecular_hash = some_hash m.molecular_hash;
      verified = false;
      error = some (thrown e);
    },
    false,
  )
  hash_checked m (ok false) = (
    record {
      molecular_hash = some_hash m.molecular_hash;
      verified = false;
      error = some hash_mismatch;
    },
    true,
  )
  hash_checked m (ok true) = checked (some_hash m.molecular_hash) (check lib f m)

  abbrev pub client_checked : Result Molecule → ServedVerification × Bool
  client_checked (err e) =
      (record { molecular_hash = none; verified = false; error = some (thrown e) }, false)
  client_checked (ok m) = hash_checked m (verify_molecular_hash lib m)

  -- The result, and whether the hash did not match.
  unfoldable pub verify_client : Json → Option Text → ServedVerification × Bool
  verify_client served forced = client_checked (molecule_of_served js now served forced)

  abbrev pub has_versions : Option Json → Bool
  has_versions (some (Json.array items)) =
      any (λ a. is_version (member a (codes "version"))) (item_list items)
    where
      is_version : Option Json → Bool
      is_version none = false
      is_version (some j) = true
  has_versions other = false

  -- The loop over the forced versions: it ends with the first that is verified.
  unfoldable pub retry : Json → List Text → ServedVerification → ServedVerification
  retry served [] result = result
  retry served (version ∷ versions) result =
      let next = (verify_client served (some version)).0 in
      let others = retry served versions next in if next.verified then next else others

  abbrev pub verify_parsed : Json → ServedVerification
  verify_parsed served =
      let first = verify_client served none in
      if first.0.verified || not first.1
      then first.0
      else if has_versions (find_in (codes "atoms") served)
      then first.0
      else retry served (codes "4" ∷ codes "3" ∷ []) first.0

  abbrev pub verify_discarded : Result Json → ServedVerification
  verify_discarded (ok served) = verify_parsed served
  verify_discarded (err e) = record {
    molecular_hash = none;
    verified = false;
    error = some not_json;
  }

  unfoldable pub verify_from_server_data : Text → ServedVerification
  verify_from_server_data served_json = verify_discarded (js.parse served_json)
