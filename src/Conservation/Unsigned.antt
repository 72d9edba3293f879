-- ===== src/Conservation/Unsigned.antt =====
-- The conservation checks do not read the signature fragments.
use knish_io_client_cpp.Base.{
  ◌≡◌, refl, sym, ap, ◌∙◌, Bool, List, [], ◌∷◌, ◌++◌, map, any, Text, same,
}
use mathlib.Core.Path.{fun_ext}
use mathlib.Core.List.{map-append}
use knish_io_client_cpp.Floats.{Floats}
use knish_io_client_cpp.Atom.{Atom}
use knish_io_client_cpp.Atom.Order.{unsigned}
use knish_io_client_cpp.Conservation.{
  is_cross, cross_step, cross_loop, cross_isotope_conservation, token_sum, token_loop,
  token_isotope_v,
}

pub any-unsigned :
    (p : Atom → Bool)
    → ((a : Atom) → p (unsigned a) ≡ p a)
    → (atoms : List Atom) → any p (map unsigned atoms) ≡ any p atoms
any-unsigned p h [] = refl
any-unsigned p h (a ∷ atoms) = rw (h a, any-unsigned p h atoms) refl

module _ (f : Floats) where
  cross_step-unsigned :
      (next : f.LongDouble → Bool → Bool) (sum : f.LongDouble) (saw : Bool) (a : Atom)
      → cross_step f next sum saw (unsigned a) ≡ cross_step f next sum saw a
  unfolding cross_step unsigned
  cross_step-unsigned next sum saw a = refl

  cross_loop-unsigned : (atoms : List Atom) → cross_loop f (map unsigned atoms) ≡ cross_loop f atoms
  unfolding cross_loop
  cross_loop-unsigned [] = refl
  cross_loop-unsigned (a ∷ atoms) = fun_ext λ sum. fun_ext λ saw.
      cross_step-unsigned (cross_loop f (map unsigned atoms)) sum saw a
      ∙ ap (λ next. cross_step f next sum saw a) (cross_loop-unsigned atoms)

  token_sum-unsigned :
      (token : Text) (result : f.Double) (atoms : List Atom)
      → token_sum f token result (map unsigned atoms) ≡ token_sum f token result atoms
  unfolding token_sum unsigned
  token_sum-unsigned token result [] = refl
  token_sum-unsigned token result (a ∷ atoms) =
      rw
        (
          token_sum-unsigned token result atoms,
          token_sum-unsigned token (f.add_double result (f.strtod a.value).0) atoms,
        )
        refl

  token_loop-unsigned :
      (seen atoms : List Atom)
      → token_loop f (map unsigned seen) (map unsigned atoms) ≡ token_loop f seen atoms
  unfolding token_loop unsigned
  token_loop-unsigned seen [] = refl
  token_loop-unsigned seen (a ∷ atoms) =
      let later =
        ap (λ s. token_loop f s (map unsigned atoms)) (sym (map-append unsigned seen (a ∷ [])))
        ∙ token_loop-unsigned (seen ++ (a ∷ [])) atoms in
      let before = any-unsigned (λ b. same b.token a.token) (λ b. unfold unsigned in refl) seen in
      let sum = token_sum-unsigned a.token f.zero_double (a ∷ atoms) in rw (before, sum, later) refl

  -- The checks of the atoms are those of the atoms with their signature fragments erased.
  pub token_isotope_v-unsigned :
      (atoms : List Atom) → token_isotope_v f (map unsigned atoms) ≡ token_isotope_v f atoms
  unfolding token_isotope_v cross_isotope_conservation
  token_isotope_v-unsigned atoms =
      rw
        (
          any-unsigned is_cross (λ b. unfold unsigned in refl) atoms,
          cross_loop-unsigned atoms,
          token_loop-unsigned [] atoms,
        )
        refl
