-- ===== src/Atom/Order.antt =====
-- The molecular hash does not read the signature fragments.
use knish_io_client_cpp.Base.{
  ℕ, ◌≡◌, refl, ap, sym, ◌∙◌, List, [], ◌∷◌, map, length, length-map, all, is_empty, Bool-cases,
  inl, inr,
}
use mathlib.Core.Path.{fun_ext}
use knish_io_client_cpp.Base.Int.{ℤ, ltb_ℤ}
use knish_io_client_cpp.Json.{json_array}
use knish_io_client_cpp.Libraries.{Libraries}
use knish_io_client_cpp.Atom.{
  Atom, insert_by_key, stable_sort, view_atom, sponge_atom, has_version, version4_view_json,
  hash_atoms, hash_atoms_hex, hash_atoms_base17,
}

module _ {A B : Type 0} (f : A → B) where
  abbrev keyed : List (ℤ × A) → List (ℤ × B)
  keyed [] = []
  keyed ((k, a) ∷ l) = (k, f a) ∷ keyed l

  keyed-insert :
      (k : ℤ) (a : A) (l : List (ℤ × A))
      → keyed (insert_by_key (k, a) l) ≡ insert_by_key (k, f a) (keyed l)
  unfolding insert_by_key
  keyed-insert k a [] = refl
  keyed-insert k a ((j, b) ∷ l) = elim (Bool-cases (ltb_ℤ j k)) [
    | inl e ↦ rw e (ap (λ t. (j, f b) ∷ t) (keyed-insert k a l))
    | inr e ↦ rw e refl
  ]

  keyed-sort : (l : List (ℤ × A)) → keyed (stable_sort l) ≡ stable_sort (keyed l)
  unfolding stable_sort
  keyed-sort [] = refl
  keyed-sort ((k, a) ∷ l) =
      keyed-insert k a (stable_sort l) ∙ ap (insert_by_key (k, f a)) (keyed-sort l)

  map-keyed :
      {C : Type 0} (g : B → C) (l : List (ℤ × A))
      → map (λ e. g e.1) (keyed l) ≡ map (λ e. g (f e.1)) l
  map-keyed g [] = refl
  map-keyed g ((k, a) ∷ l) = ap (λ t. g (f a) ∷ t) (map-keyed g l)

-- An atom before it is signed.
unfoldable pub unsigned : Atom → Atom
unsigned a = record a { ots_fragment = [] }

view_atom-unsigned : (a : Atom) → view_atom (unsigned a) ≡ view_atom a
unfolding view_atom unsigned
view_atom-unsigned a = refl

sponge_atom-unsigned : (n : ℕ) (a : Atom) → sponge_atom n (unsigned a) ≡ sponge_atom n a
unfolding sponge_atom unsigned
sponge_atom-unsigned n a = refl

keyed_atoms :
    (atoms : List Atom)
    → map (λ a. (a.index, a)) (map unsigned atoms) ≡ keyed unsigned (map (λ a. (a.index, a)) atoms)
unfolding unsigned
keyed_atoms [] = refl
keyed_atoms (a ∷ atoms) = ap (λ t. (a.index, unsigned a) ∷ t) (keyed_atoms atoms)

sponges-unsigned :
    (n : ℕ) (atoms : List Atom)
    → map (sponge_atom n) (map unsigned atoms) ≡ map (sponge_atom n) atoms
sponges-unsigned n [] = refl
sponges-unsigned n (a ∷ atoms) = rw (sponge_atom-unsigned n a, sponges-unsigned n atoms) refl

all-has_version-unsigned :
    (atoms : List Atom) → all has_version (map unsigned atoms) ≡ all has_version atoms
unfolding unsigned
all-has_version-unsigned [] = refl
all-has_version-unsigned (a ∷ atoms) = rw (all-has_version-unsigned atoms) refl

is_empty-unsigned : (atoms : List Atom) → is_empty (map unsigned atoms) ≡ is_empty atoms
is_empty-unsigned [] = refl
is_empty-unsigned (a ∷ atoms) = refl

module _ (lib : Libraries) where
  view_json-unsigned :
      (atoms : List Atom)
      → version4_view_json lib (map unsigned atoms) ≡ version4_view_json lib atoms
  unfolding version4_view_json
  view_json-unsigned atoms =
      ap (λ vs. lib.dump (json_array vs))
        (ap (λ l. map (λ e. view_atom e.1) (stable_sort l)) (keyed_atoms atoms)
          ∙ ap (map (λ e. view_atom e.1))
              (sym (keyed-sort unsigned (map (λ a. (a.index, a)) atoms)))
          ∙ map-keyed unsigned view_atom (stable_sort (map (λ a. (a.index, a)) atoms))
          ∙ ap (λ g. map (λ e. g e.1) (stable_sort (map (λ a. (a.index, a)) atoms)))
              (fun_ext view_atom-unsigned))

  hash_atoms-unsigned :
      (atoms : List Atom) → hash_atoms lib (map unsigned atoms) ≡ hash_atoms lib atoms
  unfolding hash_atoms
  hash_atoms-unsigned atoms =
      rw
        (
          is_empty-unsigned atoms,
          all-has_version-unsigned atoms,
          view_json-unsigned atoms,
          length-map unsigned atoms,
          sponges-unsigned (length atoms) atoms,
        )
        refl

  -- The molecular hash of the atoms with their signature fragments erased is that of the atoms, in the
  -- structured form and in the legacy form.
  pub hash_atoms_base17-unsigned :
      (atoms : List Atom) → hash_atoms_base17 lib (map unsigned atoms) ≡ hash_atoms_base17 lib atoms
  unfolding hash_atoms_base17 hash_atoms_hex
  hash_atoms_base17-unsigned atoms = rw (hash_atoms-unsigned atoms) refl
