-- ===== src/Check/Outcomes.antt =====
-- The outcomes of `Molecule::check` and `Molecule::verify`.
use knish_io_client_cpp.Base.{
  ◌&&◌, require, is_ok, if◌then◌else◌, ap, ◌∙◌, ◌≡◌, ◌↔◌, ◌≢◌, inl, inr, refl, Bool, true, false,
  Bool-cases, not, List-cases, is_empty, [], ◌∷◌, List, Text, same, same_iff, Result, ok, err, ◌>>◌,
  atoms_not_found, runtime_error, ◌⊎◌, ◌>>=◌, Exception,
}
use knish_io_client_cpp.Libraries.{Libraries}
use knish_io_client_cpp.Floats.{Floats}
use knish_io_client_cpp.Atom.{Atom, hash_atoms_base17, version4_view_json}
use knish_io_client_cpp.Atom.Digest.{hash_atoms_base17-is_signable_hash}
use knish_io_client_cpp.Molecule.{Molecule, verify_continu_id, verify_molecular_hash, verify_ots}
use knish_io_client_cpp.Check.{token_valid, verify, check}

-- All four tests, in the order of `check` and in that of `verify`.
all_pass :
    (c t : Bool) (hash : Result Bool) (r : Result (Unit {0}))
    → ((if not c
          then err atoms_not_found
          else (hash >>= λ b. require b runtime_error >> (r >> require t runtime_error)))
        ≡ ok tt)
      ↔ ((c ≡ true) × ((hash >>= λ b. Result.ok (b && t && is_ok r)) ≡ ok true))
all_pass false t hash r = (λ h. cc, λ (h, _). cc)
all_pass true t (err e) r = (λ h. cc, λ (_, h). cc)
all_pass true t (ok false) r = (λ h. cc, λ (_, h). cc)
all_pass true true (ok true) (err e) = (λ h. cc, λ (_, h). cc)
all_pass true false (ok true) (err e) = (λ h. cc, λ (_, h). cc)
all_pass true false (ok true) (ok x) = (λ h. cc, λ (_, h). cc)
all_pass true true (ok true) (ok x) = (λ h. (refl, refl), λ h. refl)

module _ (lib : Libraries) (f : Floats) where
  verify-of :
      (m : Molecule)
      → verify lib f m ≡ (
          verify_molecular_hash lib m >>= λ b.
          ok (b && token_valid f m && is_ok (verify_ots lib m)))
  unfolding verify
  verify-of m = refl

  check-empty : (m : Molecule) → m.atoms ≡ [] → check lib f m ≡ err atoms_not_found
  unfolding check
  check-empty m e = let none : is_empty m.atoms ≡ true = ap is_empty e in rw none refl

  check-of :
      (m : Molecule) (a : Atom) (atoms : List Atom)
      → m.atoms ≡ a ∷ atoms
      → check lib f m ≡ (
          if not (verify_continu_id m)
          then err atoms_not_found
          else (verify_molecular_hash lib m >>= λ b.
              require b runtime_error
              >> (verify_ots lib m >> require (token_valid f m) runtime_error)))
  unfolding check
  check-of m a atoms shape = let some : is_empty m.atoms ≡ false = ap is_empty shape in rw some refl

  verify-empty : (m : Molecule) → m.atoms ≡ [] → verify lib f m ≡ ok false
  unfolding verify_molecular_hash
  verify-empty m e =
      let none : is_empty m.atoms ≡ true = ap is_empty e in
      let wrong : verify_molecular_hash lib m ≡ ok false = (rw none refl) in
      verify-of m ∙ ap (λ r. r >>= λ b. ok (b && token_valid f m && is_ok (verify_ots lib m))) wrong

  -- The hash check throws only what printing the atoms throws.
  verify_molecular_hash-outcomes :
      (m : Molecule)
      → ((b : Bool) × (verify_molecular_hash lib m ≡ ok b))
        ⊎ ((thrown : Exception) × (version4_view_json lib m.atoms ≡ err thrown)
            × (verify_molecular_hash lib m ≡ err thrown))
  unfolding verify_molecular_hash
  verify_molecular_hash-outcomes m =
      elim (Bool-cases (not (is_empty m.atoms) && not (is_empty m.molecular_hash))) [
        | inr e ↦ inl (false, rw e refl)
        | inl e ↦ elim (hash_atoms_base17-is_signable_hash lib m.atoms) [
          | inl (h, hash, _) ↦ inl (same h m.molecular_hash, rw (e, hash) refl)
          | inr (thrown, _, printed, hash) ↦ inr (thrown, printed, rw (e, hash) refl)
        ]
      ]

  verify-outcomes :
      (m : Molecule)
      → ((b : Bool) × (verify lib f m ≡ ok b))
        ⊎ ((thrown : Exception) × (version4_view_json lib m.atoms ≡ err thrown)
            × (verify lib f m ≡ err thrown))
  verify-outcomes m = elim (verify_molecular_hash-outcomes m) [
    | inl (b, e) ↦ inl (b && token_valid f m && is_ok (verify_ots lib m), verify-of m ∙ (rw e refl))
    | inr (thrown, printed, e) ↦ inr (thrown, printed, verify-of m ∙ (rw e refl))
  ]

  -- `verify` returns, or throws what the library throws at printing the atoms for the hash; and `check` returns
  -- without an exception exactly for the molecules that pass `verifyContinuId` and for which `verify` returns
  -- true.
  pub check-verify :
      (m : Molecule)
      → (((b : Bool) × (verify lib f m ≡ ok b))
          ⊎ ((thrown : Exception) × (version4_view_json lib m.atoms ≡ err thrown)
              × (verify lib f m ≡ err thrown)))
        × ((check lib f m ≡ ok tt) ↔ ((verify_continu_id m ≡ true) × (verify lib f m ≡ ok true)))
  check-verify m = elim (List-cases m.atoms) [
    | inl none ↦
        (verify-outcomes m, rw (check-empty m none, verify-empty m none) (λ h. cc, λ (_, h). cc))
    | inr (a, atoms, shape) ↦ (
      verify-outcomes m,
      rw (check-of m a atoms shape, verify-of m)
          (all_pass (verify_continu_id m) (token_valid f m) (verify_molecular_hash lib m)
            (verify_ots lib m)),
    )
  ]

  -- A molecule with atoms whose stored hash is not the hash of its atoms is rejected whatever its signature:
  -- `verify` returns false, and `check` throws a runtime error, or says that atoms are missing where the
  -- ContinuID atom is.
  pub check-altered :
      (m : Molecule) (a : Atom) (atoms : List Atom) (h : Text)
      → m.atoms ≡ a ∷ atoms
      → hash_atoms_base17 lib m.atoms ≡ ok h
      → h ≢ m.molecular_hash
      → (verify lib f m ≡ ok false)
        × (check lib f m ≡ err (if verify_continu_id m then runtime_error else atoms_not_found))
  unfolding verify_molecular_hash
  check-altered m a atoms h shape hash ne =
      let differ : same h m.molecular_hash ≡ false = elim (Bool-cases (same h m.molecular_hash)) [
        | inl e ↦ absurd (ne ((same_iff h m.molecular_hash).0 e))
        | inr e ↦ e
      ] in
      let some : is_empty m.atoms ≡ false = ap is_empty shape in
      let wrong : verify_molecular_hash lib m ≡ ok false =
        elim (Bool-cases (is_empty m.molecular_hash)) [
          | inl e ↦ rw (some, e) refl
          | inr e ↦ rw (some, e, hash, differ) refl
        ] in
      (
        verify-of m ∙ (rw wrong refl),
        check-of m a atoms shape ∙ elim (Bool-cases (verify_continu_id m)) [
          | inl e ↦ rw (e, wrong) refl
          | inr e ↦ rw e refl
        ],
      )
