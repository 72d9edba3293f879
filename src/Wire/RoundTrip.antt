-- ===== src/Wire/RoundTrip.antt =====
-- `Molecule::jsonToObject` reads back what `Molecule::toJson` writes.
use knish_io_client_cpp.Base.{
  ℕ, suc, ◌^◌, ◌<◌, ◌≡◌, ◌∙◌, refl, sym, ap, false, List, [], ◌∷◌, ◌++◌, All, arith, Text, ok,
  Option, none, some,
}
use mathlib.Core.List.{append-nil, append_assoc}
use knish_io_client_cpp.Base.Int.{ℤ, pos, negsuc, sub_ℕ, magnitude}
use knish_io_client_cpp.Base.Decimal.{to_string}
use knish_io_client_cpp.Base.Numerals.{parse_integer-decimal, parse_integer-negative}
use knish_io_client_cpp.Json.{Json, before, put, find}
use knish_io_client_cpp.Atom.{Atom, Meta}
use knish_io_client_cpp.Storage.Libraries.{JsonText, IsExactText}
use knish_io_client_cpp.Wire.Write.{nullable, meta_to_json, atom_to_json, atoms_to_json}
use knish_io_client_cpp.Wire.Plain.{
  none_empty, IsWireAtom, atom_fields, atom_to_json-fields, atom_to_json-plain,
}
use knish_io_client_cpp.Wire.Read.{
  item_list, strtoll, nearest, nullable_at, or_empty, was_empty, meta_from, atom_from_json,
  atom_json_to_object, atoms_from,
}

sub-negsuc : (n : ℕ) → sub_ℕ 0 (suc n) ≡ negsuc n
sub-negsuc n = ground arith

pub strtoll-to_string : (n : ℤ) → magnitude n < 2 ^ 63 → strtoll (to_string n) ≡ n
unfolding strtoll to_string
strtoll-to_string (pos n) h = ap (nearest _) (parse_integer-decimal 64 n (omega (arith, h)))
strtoll-to_string (negsuc n) h =
    ap (nearest _) (parse_integer-negative 64 (suc n) (omega (arith, h))) ∙ sub-negsuc n

-- What is read of empty text, which is written as `null`, and of other text.
abbrev pub kept : Text → Option Text
kept [] = none
kept (c ∷ s) = some (c ∷ s)

pub or_empty-kept : (js : JsonText) (s : Text) → or_empty js (kept s) ≡ s
or_empty-kept js [] = refl
or_empty-kept js (c ∷ s) = refl

was_empty-kept : (js : JsonText) (s : Text) → was_empty js (kept s) ≡ false
was_empty-kept js [] = refl
was_empty-kept js (c ∷ s) = refl

module _ (js : JsonText) (exact : IsExactText js) where
  pub nullable_at-nullable : (s : Text) → nullable_at js (some (nullable s)) ≡ ok (kept s)
  unfolding nullable
  nullable_at-nullable [] = refl
  nullable_at-nullable (c ∷ s) = rw (exact.get_string-text (c ∷ s)) refl

  nullable_at-text : (s : Text) → nullable_at js (some (Json.text s)) ≡ ok (some s)
  nullable_at-text s = rw (exact.get_string-text s) refl

  meta_from-meta :
      (meta acc : Meta)
      → meta_from js (item_list (meta_to_json meta)) (acc, []) ≡ ok (acc ++ meta, [])
  unfolding meta_from meta_to_json put before find item_list
  meta_from-meta [] acc = ap (λ l. ok (l, [])) (sym (append-nil acc))
  meta_from-meta ((key, value) ∷ meta) acc = rw (exact.get_string-text key) (
      meta_from-meta meta (acc ++ ((key, value) ∷ []))
      ∙ ap (λ l. ok (l, [])) (append_assoc acc ((key, value) ∷ []) meta))

  atom_from_json-fields :
      (now : ℤ) (a : Atom) (version : Option Text)
      → IsWireAtom a
      → atom_from_json js now (Json.object (atom_fields a version))
        ≡ ok (record a { version = version; null_meta = []; parsed_empty = none_empty })
  unfolding atom_from_json find
  atom_from_json-fields now a none h =
      rw
        (
          exact.get_string-text a.position,
          exact.get_string-text a.wallet_address,
          exact.get_string-text a.isotope,
          exact.get_string-text a.token,
        )
        (rw
          (
            nullable_at-nullable a.value,
            nullable_at-nullable a.batch_id,
            nullable_at-nullable a.meta_type,
            nullable_at-nullable a.meta_id,
            meta_from-meta a.meta [],
          )
          (rw
            (
              exact.get_string-text a.ots_fragment,
              exact.get_string-text (to_string a.created_at),
              strtoll-to_string a.created_at h.bounded_created_at,
              h.bounded_index.0,
            )
            (rw
              (
                or_empty-kept js a.value,
                or_empty-kept js a.batch_id,
                or_empty-kept js a.meta_type,
                or_empty-kept js a.meta_id,
                was_empty-kept js a.value,
                was_empty-kept js a.batch_id,
                was_empty-kept js a.meta_type,
                was_empty-kept js a.meta_id,
              )
              refl)))
  atom_from_json-fields now a (some version) h =
      rw
        (
          exact.get_string-text a.position,
          exact.get_string-text a.wallet_address,
          exact.get_string-text a.isotope,
          exact.get_string-text a.token,
        )
        (rw
          (
            nullable_at-nullable a.value,
            nullable_at-nullable a.batch_id,
            nullable_at-nullable a.meta_type,
            nullable_at-nullable a.meta_id,
            meta_from-meta a.meta [],
          )
          (rw
            (
              exact.get_string-text a.ots_fragment,
              exact.get_string-text (to_string a.created_at),
              strtoll-to_string a.created_at h.bounded_created_at,
              h.bounded_index.0,
            )
            (rw
              (
                or_empty-kept js a.value,
                or_empty-kept js a.batch_id,
                or_empty-kept js a.meta_type,
                or_empty-kept js a.meta_id,
                was_empty-kept js a.value,
                was_empty-kept js a.batch_id,
                was_empty-kept js a.meta_type,
                was_empty-kept js a.meta_id,
              )
              refl)))

  atom_json_to_object-atom :
      (now : ℤ) (a : Atom)
      → IsWireAtom a
      → (t : Text) × (js.dump (atom_to_json a) ≡ ok t) × (atom_json_to_object js now t ≡ ok a)
  unfolding atom_json_to_object
  atom_json_to_object-atom now a h =
      let (t, dumped, parsed) = exact.parse-dump (atom_to_json a) (atom_to_json-plain a h) in
      (
        t,
        dumped,
        rw parsed (
            ap (atom_from_json js now) (atom_to_json-fields a a.version)
            ∙ atom_from_json-fields now a a.version h
            ∙ ap (λ n. ok (record a { null_meta = n; parsed_empty = none_empty }))
                (sym h.no_null_meta)
            ∙ ap (λ e. ok (record a { parsed_empty = e })) (sym h.no_parsed_empty)),
      )

  pub atoms_from-atoms :
      (now : ℤ) (atoms : List Atom)
      → All IsWireAtom atoms
      → atoms_from js now (item_list (atoms_to_json atoms)) ≡ ok atoms
  unfolding atoms_from atoms_to_json item_list
  atoms_from-atoms now [] h = refl
  atoms_from-atoms now (a ∷ atoms) h =
      let (t, dumped, parsed) = atom_json_to_object-atom now a h.0 in
      rw (dumped, parsed)
        (rw
          (
            h.0.some_position,
            h.0.some_wallet_address,
            h.0.some_isotope,
            atoms_from-atoms now atoms h.1,
          )
          refl)
