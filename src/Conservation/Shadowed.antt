-- ===== src/Conservation/Shadowed.antt =====
-- The outer loop of `Molecule::verifyTokenIsotopeV` passes over a token that the first atom has.
use knish_io_client_cpp.Base.{
  ◌≡◌, refl, true, false, Bool-cases, inl, inr, List, [], ◌∷◌, ◌++◌, any, All, Text, codes, same,
  ok,
}
use knish_io_client_cpp.Floats.{Floats}
use knish_io_client_cpp.Atom.{Atom}
use knish_io_client_cpp.Conservation.{has_isotope, is_cross, token_loop, token_isotope_v}

abbrev pub OfToken : Text → Atom → Type 0
OfToken token a = same token a.token ≡ true

pub no_cross :
    (atoms : List Atom) → All (λ a. is_cross a ≡ false) atoms → any is_cross atoms ≡ false
no_cross [] h = refl
no_cross (a ∷ atoms) h = rw h.0 (no_cross atoms h.1)

module _ (f : Floats) where
  pub token_loop-seen :
      (first : Atom) (seen atoms : List Atom)
      → All (OfToken first.token) atoms
      → token_loop f (first ∷ seen) atoms ≡ ok true
  unfolding token_loop
  token_loop-seen first seen [] h = refl
  token_loop-seen first seen (a ∷ atoms) h =
      let later = token_loop-seen first (seen ++ (a ∷ [])) atoms h.1 in
      elim (Bool-cases (has_isotope (codes "V") a)) [
        | inl e ↦ rw (e, h.0) later
        | inr e ↦ rw e later
      ]

  -- Where no atom is of isotope B or F, and all the atoms have the token of the first, and the first is not
  -- of isotope V, the conservation check passes whatever the values of the V atoms are.
  pub token_isotope_v-shadowed :
      (first : Atom) (atoms : List Atom)
      → has_isotope (codes "V") first ≡ false
      → All (λ a. is_cross a ≡ false) (first ∷ atoms)
      → All (OfToken first.token) atoms
      → token_isotope_v f (first ∷ atoms) ≡ ok true
  unfolding token_isotope_v token_loop
  token_isotope_v-shadowed first atoms hv plain tokens =
      rw (plain.0, no_cross atoms plain.1) (rw hv (token_loop-seen first [] atoms tokens))
