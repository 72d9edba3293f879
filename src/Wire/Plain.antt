-- ===== src/Wire/Plain.antt =====
-- The JSON of an atom of ASCII texts is printed and parsed without loss.
use knish_io_client_cpp.Base.{
  suc, ◌^◌, ◌<◌, ◌≡◌, ◌∙◌, refl, ap, true, false, [], ◌∷◌, All, is_empty, ltb, lt→ltb, arith, Text,
  codes, Option, none, some,
}
use knish_io_client_cpp.Base.Int.{ℤ, pos, negsuc, magnitude}
use knish_io_client_cpp.Base.Decimal.{decimal, to_string}
use knish_io_client_cpp.Base.Integers.{wrap}
use knish_io_client_cpp.Base.Numerals.{IsDigit, decimal-digits}
use knish_io_client_cpp.Json.{Json, Fields, before, put, is_ascii, is_plain, plain_items}
use knish_io_client_cpp.Atom.{Atom, Meta, ParsedEmpty}
use knish_io_client_cpp.Wire.Write.{nullable, meta_to_json, atom_to_json}

abbrev pub none_empty : ParsedEmpty
none_empty = record {
  empty_value = false;
  empty_batch_id = false;
  empty_meta_type = false;
  empty_meta_id = false;
}

abbrev pub IsAsciiOption : Option Text → Type 0
IsAsciiOption none = Unit {0}
IsAsciiOption (some s) = is_ascii s ≡ true

-- An atom as this client builds it: ASCII texts, the required ones not empty, a time of 64 bits and an index of 32,
-- and nothing that only the parser sets.
pub record IsWireAtom (a : Atom) : Type 0 where
  pub some_position : is_empty a.position ≡ false
  pub some_wallet_address : is_empty a.wallet_address ≡ false
  pub some_isotope : is_empty a.isotope ≡ false
  pub ascii_position : is_ascii a.position ≡ true
  pub ascii_wallet_address : is_ascii a.wallet_address ≡ true
  pub ascii_isotope : is_ascii a.isotope ≡ true
  pub ascii_token : is_ascii a.token ≡ true
  pub ascii_value : is_ascii a.value ≡ true
  pub ascii_batch_id : is_ascii a.batch_id ≡ true
  pub ascii_meta_type : is_ascii a.meta_type ≡ true
  pub ascii_meta_id : is_ascii a.meta_id ≡ true
  pub ascii_meta : All (λ kv. (is_ascii kv.0 ≡ true) × (is_ascii kv.1 ≡ true)) a.meta
  pub ascii_ots_fragment : is_ascii a.ots_fragment ≡ true
  pub ascii_version : IsAsciiOption a.version
  pub bounded_created_at : magnitude a.created_at < 2 ^ 63
  pub bounded_index : (wrap 32 a.index ≡ a.index) × (magnitude a.index < 2 ^ 63)
  pub no_null_meta : a.null_meta ≡ []
  pub no_parsed_empty : a.parsed_empty ≡ none_empty

abbrev pub version_fields : Option Text → Fields → Fields
version_fields none rest = rest
version_fields (some version) rest = Fields.field (codes "version") (Json.text version) rest

-- The fields of an atom, in the order of their keys.
abbrev pub atom_fields : Atom → Option Text → Fields
atom_fields a version = Fields.field (codes "batchId") (nullable a.batch_id) (
    Fields.field (codes "createdAt") (Json.text (to_string a.created_at)) (
      Fields.field (codes "index") (Json.number a.index) (
        Fields.field (codes "isotope") (Json.text a.isotope) (
          Fields.field (codes "meta") (Json.array (meta_to_json a.meta)) (
            Fields.field (codes "metaId") (nullable a.meta_id) (
              Fields.field (codes "metaType") (nullable a.meta_type) (
                Fields.field (codes "otsFragment") (Json.text a.ots_fragment) (
                  Fields.field (codes "position") (Json.text a.position) (
                    Fields.field (codes "token") (Json.text a.token) (
                      Fields.field (codes "value") (nullable a.value) (
                        version_fields version (
                          Fields.field (codes "walletAddress") (Json.text a.wallet_address)
                            Fields.end))))))))))))

pub atom_to_json-fields :
    (a : Atom) (version : Option Text)
    → atom_to_json (record a { version = version }) ≡ Json.object (atom_fields a version)
unfolding atom_to_json put before
atom_to_json-fields a none = refl
atom_to_json-fields a (some version) = refl

nullable-plain : (s : Text) → is_ascii s ≡ true → is_plain (nullable s) ≡ true
unfolding nullable is_plain
nullable-plain [] h = refl
nullable-plain (c ∷ s) h = h

meta_to_json-plain :
    (meta : Meta)
    → All (λ kv. (is_ascii kv.0 ≡ true) × (is_ascii kv.1 ≡ true)) meta
    → plain_items (meta_to_json meta) ≡ true
unfolding meta_to_json is_plain put before
meta_to_json-plain [] h = refl
meta_to_json-plain ((key, value) ∷ meta) h = rw (h.0.0, h.0.1, meta_to_json-plain meta h.1) refl

digits-ascii : (s : Text) → All IsDigit s → is_ascii s ≡ true
digits-ascii [] h = refl
digits-ascii (c ∷ s) h =
    let small : ltb c 128 ≡ true = ground (arith, h.0) in rw (small, digits-ascii s h.1) refl

pub to_string-ascii : (n : ℤ) → is_ascii (to_string n) ≡ true
unfolding to_string
to_string-ascii (pos n) = digits-ascii (decimal n) (decimal-digits n)
to_string-ascii (negsuc n) = digits-ascii (decimal (suc n)) (decimal-digits (suc n))

atom_fields-plain :
    (a : Atom) (version : Option Text)
    → IsWireAtom a
    → IsAsciiOption version
    → is_plain (Json.object (atom_fields a version)) ≡ true
unfolding is_plain before
atom_fields-plain a none h v =
    rw
      (
        nullable-plain a.batch_id h.ascii_batch_id,
        to_string-ascii a.created_at,
        lt→ltb (magnitude a.index) 9223372036854775808 (omega (arith, h.bounded_index.1)),
        h.ascii_isotope,
        meta_to_json-plain a.meta h.ascii_meta,
        nullable-plain a.meta_id h.ascii_meta_id,
        nullable-plain a.meta_type h.ascii_meta_type,
        h.ascii_ots_fragment,
        h.ascii_position,
        h.ascii_token,
        nullable-plain a.value h.ascii_value,
        h.ascii_wallet_address,
      )
      refl
atom_fields-plain a (some version) h v =
    rw
      (
        nullable-plain a.batch_id h.ascii_batch_id,
        to_string-ascii a.created_at,
        lt→ltb (magnitude a.index) 9223372036854775808 (omega (arith, h.bounded_index.1)),
        h.ascii_isotope,
        meta_to_json-plain a.meta h.ascii_meta,
        nullable-plain a.meta_id h.ascii_meta_id,
        nullable-plain a.meta_type h.ascii_meta_type,
        h.ascii_ots_fragment,
        h.ascii_position,
        h.ascii_token,
        nullable-plain a.value h.ascii_value,
        v,
        h.ascii_wallet_address,
      )
      refl

pub atom_to_json-plain : (a : Atom) → IsWireAtom a → is_plain (atom_to_json a) ≡ true
atom_to_json-plain a h =
    ap is_plain (atom_to_json-fields a a.version) ∙ atom_fields-plain a a.version h h.ascii_version
