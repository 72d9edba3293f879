-- ===== src/Molecule/Assign.antt =====
-- The loop of `Molecule::sign` that stores the signature's pieces in the atoms.
use knish_io_client_cpp.Base.{
  ◌≤◌, ◌≡◌, refl, ap, List, [], ◌∷◌, ◌++◌, map, arith, length, concat, All, Text, ok,
}
use knish_io_client_cpp.Atom.{Atom}
use knish_io_client_cpp.Atom.Order.{unsigned}
use knish_io_client_cpp.Molecule.{assign_fragments, joined_fragments}

-- An atom that no signature was stored in.
abbrev pub Unsigned : Atom → Type 0
Unsigned a = a.ots_fragment ≡ []

joined-none : (atoms : List Atom) → All Unsigned atoms → joined_fragments atoms ≡ []
joined-none [] h = refl
joined-none (a ∷ atoms) h = rw (h.0, joined-none atoms h.1) refl

-- No more pieces than atoms: they are stored, and reading the atoms in order gives the pieces joined.
-- Nothing but the fragments changes.
pub assign_fragments-ok :
    (atoms : List Atom) (pieces : List Text) (last : Text)
    → All Unsigned atoms
    → length pieces ≤ length atoms
    → (after : List Atom) × (final : Text) × (assign_fragments atoms pieces last
        ≡ ok (after, final))
      × (joined_fragments after ≡ concat pieces)
      × (map unsigned after ≡ map unsigned atoms)
unfolding assign_fragments unsigned
assign_fragments-ok atoms [] last h l = (atoms, last, refl, joined-none atoms h, refl)
assign_fragments-ok [] (p ∷ ps) last h l = absurd (omega arith)
assign_fragments-ok (a ∷ atoms) (p ∷ ps) last h l =
    let (after, final, run, joined, same) =
      assign_fragments-ok atoms ps a.position h.1 (omega arith) in
    (
      record a { ots_fragment = p } ∷ after,
      final,
      rw run refl,
      ap (λ t. p ++ t) joined,
      rw same refl,
    )
