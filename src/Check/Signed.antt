-- ===== src/Check/Signed.antt =====
-- What `Molecule::sign` writes, `Molecule::check` accepts, with the checks that do not look at signatures.
use knish_io_client_cpp.Base.{
  ◌≡◌, ◌∙◌, ◌⊎◌, refl, sym, ap, Bool, true, false, List, [], ◌∷◌, map, is_empty, Text, codes, same,
  ok, ◌>>=◌, All,
}
use knish_io_client_cpp.Base.Int.{pos}
use knish_io_client_cpp.Libraries.{Libraries}
use knish_io_client_cpp.Floats.{Floats}
use knish_io_client_cpp.Atom.{Atom}
use knish_io_client_cpp.Atom.Order.{unsigned}
use knish_io_client_cpp.Atom.Digest.{HasView}
use knish_io_client_cpp.Wallet.{generate_wallet_key, generate_wallet_address}
use knish_io_client_cpp.Molecule.{
  Molecule, signing_ots_version, sign, has_continu_id, verify_continu_id, verify_molecular_hash,
  verify_ots,
}
use knish_io_client_cpp.Molecule.Assign.{Unsigned}
use knish_io_client_cpp.Molecule.Signing.{sign-accepted}
use knish_io_client_cpp.Conservation.{token_isotope_v, verify_token_isotope_v}
use knish_io_client_cpp.Conservation.Unsigned.{any-unsigned, token_isotope_v-unsigned}
use knish_io_client_cpp.Check.{token_valid, verify, check}
use knish_io_client_cpp.Check.Outcomes.{check-verify}

has_continu_id-unsigned :
    (atoms : List Atom) → has_continu_id (map unsigned atoms) ≡ has_continu_id atoms
unfolding has_continu_id unsigned
has_continu_id-unsigned [] = refl
has_continu_id-unsigned (a ∷ atoms) =
    rw (any-unsigned (λ b. same b.isotope (codes "I")) (λ b. refl) atoms) refl

is_empty-unsigned : (atoms : List Atom) → is_empty (map unsigned atoms) ≡ is_empty atoms
is_empty-unsigned [] = refl
is_empty-unsigned (a ∷ atoms) = refl

-- A molecule whose signature fragments alone differ from those of another has the same ContinuID test.
verify_continu_id-unsigned :
    (m signed : Molecule)
    → map unsigned signed.atoms ≡ map unsigned m.atoms
    → verify_continu_id signed ≡ verify_continu_id m
unfolding verify_continu_id
verify_continu_id-unsigned m signed same =
    sym (has_continu_id-unsigned signed.atoms)
    ∙ ap has_continu_id same
    ∙ has_continu_id-unsigned m.atoms

module _ (lib : Libraries) (f : Floats) where
  verify_token_isotope_v-run :
      (m : Molecule)
      → is_empty m.atoms ≡ false
      → is_empty m.molecular_hash ≡ false
      → verify_token_isotope_v f m ≡ token_isotope_v f m.atoms
  unfolding verify_token_isotope_v
  verify_token_isotope_v-run m some some_hash = rw (some, some_hash) refl

  token_valid-run :
      (m : Molecule)
      → is_empty m.atoms ≡ false
      → is_empty m.molecular_hash ≡ false
      → token_isotope_v f m.atoms ≡ ok true
      → token_valid f m ≡ true
  unfolding token_valid
  token_valid-run m some some_hash conserved =
      rw (verify_token_isotope_v-run m some some_hash ∙ conserved) refl

  token_valid-signed :
      (m signed : Molecule)
      → map unsigned signed.atoms ≡ map unsigned m.atoms
      → is_empty m.atoms ≡ false
      → is_empty signed.molecular_hash ≡ false
      → token_isotope_v f m.atoms ≡ ok true
      → token_valid f signed ≡ true
  token_valid-signed m signed same some some_hash conserved =
      let some' : is_empty signed.atoms ≡ false =
        sym (is_empty-unsigned signed.atoms)
        ∙ ap is_empty same
        ∙ is_empty-unsigned m.atoms
        ∙ some in
      let conserved' : token_isotope_v f signed.atoms ≡ ok true =
        sym (token_isotope_v-unsigned f signed.atoms)
        ∙ ap (token_isotope_v f) same
        ∙ token_isotope_v-unsigned f m.atoms
        ∙ conserved in
      token_valid-run signed some' some_hash conserved'

  verify-run :
      (m : Molecule)
      → verify_molecular_hash lib m ≡ ok true
      → token_valid f m ≡ true
      → verify_ots lib m ≡ ok tt
      → verify lib f m ≡ ok true
  unfolding verify
  verify-run m hash token ots = rw (hash, token, ots) refl

  -- A molecule with at least one atom and no stored signature that passes verifyContinuId and
  -- verifyTokenIsotopeV, of a wallet at version 1 or 2 whose address is the address of the key that the
  -- secret generates, and whose atoms are printed where all have a version, is signed without an exception, compressed or not, and what `sign` leaves passes
  -- `check` and `verify`.
  pub check-sign :
      (m : Molecule) (secret : Text) (anonymous compressed : Bool) (front : Atom)
      (others : List Atom)
      → m.atoms ≡ front ∷ others
      → All Unsigned m.atoms
      → is_empty secret ≡ false
      → is_empty front.position ≡ false
      → (signing_ots_version m ≡ pos 1) ⊎ (signing_ots_version m ≡ pos 2)
      → (generate_wallet_key lib secret front.token front.position (signing_ots_version m)
          >>= generate_wallet_address lib)
        ≡ ok front.wallet_address
      → verify_continu_id m ≡ true
      → token_isotope_v f m.atoms ≡ ok true
      → HasView lib m.atoms
      → (last : Text) × (signed : Molecule) × (sign lib m secret anonymous compressed
          ≡ (ok last, signed))
        × (check lib f signed ≡ ok tt)
        × (verify lib f signed ≡ ok true)
  check-sign m secret anonymous compressed front others shape fresh hs hp hv owned continued
        conserved view =
      let (last, signed, run, ots, hash, same, some) =
        sign-accepted lib m secret anonymous compressed front others shape fresh hs hp hv owned
          view in
      let token = token_valid-signed m signed same (ap is_empty shape) some conserved in
      let valid = verify-run signed hash token ots in
      (
        last,
        signed,
        run,
        (check-verify lib f signed).1.1
            (verify_continu_id-unsigned m signed same ∙ continued, valid),
        valid,
      )
