-- ===== src/Conservation.antt =====
-- `verifyTokenIsotopeV` and `verifyCrossIsotopeConservation` of src/Molecule.cpp.
pub mod Unsigned
pub mod Shadowed
pub mod Transfer
use knish_io_client_cpp.Base.{
  ℕ, Bool, true, false, not, ◌&&◌, ◌||◌, List, [], ◌∷◌, ◌++◌, ◌==◌, if◌then◌else◌, length, is_empty,
  any, Text, codes, same, Result, ok, err, ◌>>=◌, ◌>>◌, require, runtime_error,
}
use knish_io_client_cpp.Floats.{Floats}
use knish_io_client_cpp.Atom.{Atom}
use knish_io_client_cpp.Molecule.{Molecule}

abbrev pub has_isotope : Text → Atom → Bool
has_isotope isotope a = same a.isotope isotope

-- `atom.isotope == "B" || atom.isotope == "F"`
abbrev pub is_cross : Atom → Bool
is_cross a = has_isotope (codes "B") a || has_isotope (codes "F") a

module _ (f : Floats) where
  -- One turn of the loop: with the sum so far and whether a B or F atom was seen, it returns or goes on.
  unfoldable pub cross_step : (f.LongDouble → Bool → Bool) → f.LongDouble → Bool → Atom → Bool
  cross_step next sum saw a =
      let saw' = saw || is_cross a in
      if is_cross a && (not (same a.meta_type (codes "walletBundle")) || is_empty a.meta_id)
      then false
      else if not (is_cross a) && not (has_isotope (codes "V") a)
      then next sum saw'
      else if is_empty a.value
      then next sum saw'
      else elim (f.stold a.value) [
        | err _ ↦ false
        | ok parsed ↦
            if has_isotope (codes "F") a && f.is_negative_long parsed
            then false
            else next (f.add_long sum parsed) saw'
      ]

  unfoldable pub cross_loop : List Atom → f.LongDouble → Bool → Bool
  cross_loop [] sum saw = if not saw then true else f.is_tiny_long sum
  cross_loop (a ∷ atoms) sum saw = cross_step (cross_loop atoms) sum saw a

  unfoldable pub cross_isotope_conservation : List Atom → Bool
  cross_isotope_conservation atoms = cross_loop atoms f.zero_long false

  unfoldable pub verify_cross_isotope_conservation : Molecule → Bool
  verify_cross_isotope_conservation m = cross_isotope_conservation m.atoms

  -- The inner loop: the sum of the V atoms of a token. A value that is not read to its end throws.
  unfoldable pub token_sum : Text → f.Double → List Atom → Result f.Double
  token_sum token result [] = ok result
  token_sum token result (a ∷ atoms) =
      let skip = token_sum token result atoms in
      let add = token_sum token (f.add_double result (f.strtod a.value).0) atoms in
      if not (has_isotope (codes "V") a) || not (same a.token token)
      then skip
      else require ((f.strtod a.value).1 == length a.value) runtime_error >> add

  -- The outer loop, with the atoms before. A token that an atom before has, of any isotope, counts as
  -- processed.
  unfoldable pub token_loop : List Atom → List Atom → Result Bool
  token_loop seen [] = ok true
  token_loop seen (a ∷ atoms) =
      let later = token_loop (seen ++ (a ∷ [])) atoms in
      if not (has_isotope (codes "V") a)
      then later
      else if any (λ b. same b.token a.token) seen
      then later
      else (token_sum a.token f.zero_double (a ∷ atoms) >>= λ result.
          if not (f.is_zero_double result) then ok false else later)

  unfoldable pub token_isotope_v : List Atom → Result Bool
  token_isotope_v atoms =
      if any is_cross atoms then ok (cross_isotope_conservation atoms) else token_loop [] atoms

  unfoldable pub verify_token_isotope_v : Molecule → Result Bool
  verify_token_isotope_v m =
      if is_empty m.atoms || is_empty m.molecular_hash then ok false else token_isotope_v m.atoms
