-- ===== src/Tests/Checks.antt =====
-- Runs of the theorems on the conservation checks and on `Molecule::check`, with floating-point numbers
-- that are integers.
use knish_io_client_cpp.Base.{
  ℕ, ◌≡◌, ◌↔◌, refl, ap, true, false, Bool, [], ◌∷◌, map, arith, length, inl, is_empty, Text, codes,
  ◌⊎◌, Exception, Result, ok, err, if◌then◌else◌, atoms_not_found, runtime_error,
}
use knish_io_client_cpp.Base.Int.{ℤ, pos, ◌+ℤ◌, eqb_ℤ, ltb_ℤ}
use knish_io_client_cpp.Base.Decimal.{decimal}
use knish_io_client_cpp.Base.Integers.{parse_integer}
use knish_io_client_cpp.Base.Numerals.{parse_integer-decimal, parse_integer-negative}
use knish_io_client_cpp.Floats.{Floats, AreExact}
use knish_io_client_cpp.Atom.{Atom, hash_atoms_base17, version4_view_json}
use knish_io_client_cpp.Atom.Digest.{hash_atoms_base17-ok, legacy-HasView}
use knish_io_client_cpp.BigInt.{is_signable_hash}
use knish_io_client_cpp.Wallet.{Wallet}
use knish_io_client_cpp.Molecule.{Molecule, signing_ots_version, verify_continu_id}
use knish_io_client_cpp.Molecule.Signing.{signable-some}
use knish_io_client_cpp.Builders.{
  init_token_creation, init_token_replenish, init_meta, init_authorization, init_wallet_creation,
  init_shadow_wallet_claim,
}
use knish_io_client_cpp.Transfers.{init_value, init_values}
use knish_io_client_cpp.Conservation.{token_isotope_v}
use knish_io_client_cpp.Conservation.Shadowed.{token_isotope_v-shadowed}
use knish_io_client_cpp.Check.{check, verify}
use knish_io_client_cpp.Check.Outcomes.{check-verify, check-altered}
use knish_io_client_cpp.Check.Built.{Accepted, builders-check}
use knish_io_client_cpp.Check.Moved.{init_value-check, init_values-check}
use knish_io_client_cpp.Tests.{test_libraries, test_molecule, test_atom, test_owned, zeros}
use knish_io_client_cpp.Tests.Building.{test_wallet, test_wallet-PrintsUnits}

abbrev read_of : Result ℤ → ℕ → ℤ × ℕ
read_of (ok value) whole = (value, whole)
read_of (err thrown) whole = (pos 0, 0)

abbrev read : Text → ℤ × ℕ
read s = read_of (parse_integer 64 s) (length s)

abbrev pub test_floats : Floats
test_floats = record {
  Double = ℤ;
  strtod = read;
  zero_double = pos 0;
  add_double = λ a b. a +ℤ b;
  is_zero_double = λ a. eqb_ℤ a (pos 0);
  LongDouble = ℤ;
  stold = parse_integer 64;
  zero_long = pos 0;
  add_long = λ a b. a +ℤ b;
  is_negative_long = λ a. ltb_ℤ a (pos 0);
  is_tiny_long = λ a. eqb_ℤ a (pos 0);
}

test_floats-exact : AreExact test_floats
test_floats-exact = record {
  double_of = λ a. a;
  strtod-decimal =
      λ n h. ap (λ r. read_of r (length (decimal n))) (parse_integer-decimal 64 n (omega arith));
  strtod-negative = λ n p h.
      ap (λ r. read_of r (length (b'-' ∷ decimal n))) (parse_integer-negative 64 n (omega arith));
  zero_double_of = refl;
  add_double_of = λ a b h k. refl;
  is_zero_double_of = λ a. refl;
  long_of = λ a. a;
  stold-decimal = λ n h. parse_integer-decimal 64 n (omega arith);
  stold-negative = λ n p h. parse_integer-negative 64 n (omega arith);
  zero_long_of = refl;
  add_long_of = λ a b h k. refl;
  is_negative_long_of = λ a. refl;
  is_tiny_long_of = λ a. refl;
}

abbrev test_fresh : Molecule
test_fresh = record test_molecule { atoms = [] }

abbrev test_source : Text → Text → Wallet
test_source token balance = record (test_wallet balance) { address = zeros; token = token }

builders-check_example :
    (Accepted test_libraries test_floats
      (init_token_creation
        (λ i. pos i)
        test_fresh
        (test_source (codes "USER") [])
        (test_wallet [])
        (codes "5")
        [])
      (codes "ab")
      false
      true)
    × ((replenished : Molecule) × (init_token_replenish test_libraries
            (λ i. pos i)
            test_fresh
            (test_source (codes "USER") [])
            (test_wallet [])
            (codes "5")
            (test_wallet []).token_units
          ≡ (ok replenished.atoms, replenished))
        × Accepted test_libraries test_floats replenished (codes "ab") false true)
    × (Accepted test_libraries test_floats
        (init_meta
          (λ i. pos i)
          test_fresh
          (test_source (codes "USER") [])
          []
          (codes "t")
          (codes "i"))
        (codes "ab")
        false
        true)
    × (Accepted test_libraries test_floats
        (init_authorization (λ i. pos i) test_fresh (test_source (codes "USER") []) true)
        (codes "ab")
        false
        true)
    × (Accepted test_libraries test_floats
        (init_wallet_creation
          (λ i. pos i)
          test_fresh
          (test_source (codes "USER") [])
          (test_wallet [])
          [])
        (codes "ab")
        false
        true)
    × (Accepted test_libraries test_floats
        (init_shadow_wallet_claim
          (λ i. pos i)
          test_fresh
          (test_source (codes "USER") [])
          (test_wallet []))
        (codes "ab")
        false
        true)
unfolding signing_ots_version
builders-check_example =
    builders-check test_libraries test_floats (λ i. pos i) test_fresh
      (test_source (codes "USER") []) (test_wallet []) (codes "ab") false true (codes "5")
      (codes "t") (codes "i") [] (test_wallet []).token_units true refl refl refl (inl refl)
      (test_owned (codes "USER")) (test_wallet-PrintsUnits [])

init_value-check_example :
    (after : Molecule) × (init_value test_libraries
        (λ i. pos i)
        test_fresh
        (test_source (codes "COIN") (decimal 1000))
        (test_wallet [])
        (test_wallet [])
        (decimal 250)
      ≡ (ok after.atoms, after))
    × Accepted test_libraries test_floats after (codes "ab") true false
unfolding signing_ots_version
init_value-check_example =
    init_value-check test_libraries test_floats test_floats-exact (λ i. pos i) test_fresh
      (test_source (codes "COIN") (decimal 1000)) (test_wallet []) (test_wallet []) 1000 250
      (codes "ab") true false refl (refl, refl) refl refl (omega arith) (omega arith) (omega arith)
      refl refl (inl refl) (test_owned (codes "COIN")) (test_wallet-PrintsUnits [])
      (test_wallet-PrintsUnits []) (test_wallet-PrintsUnits [])

init_values-check_example :
    (after : Molecule) × (init_values test_libraries
        (λ i. pos i)
        test_fresh
        (test_source (codes "COIN") (decimal 1000))
        ((test_wallet []) ∷ (test_wallet []) ∷ [])
        (map decimal (250 ∷ 300 ∷ []))
        (test_wallet [])
      ≡ (ok after.atoms, after))
    × Accepted test_libraries test_floats after (codes "ab") true false
unfolding signing_ots_version
init_values-check_example =
    init_values-check test_libraries test_floats test_floats-exact (λ i. pos i) test_fresh
      (test_source (codes "COIN") (decimal 1000)) ((test_wallet []) ∷ (test_wallet []) ∷ [])
      (test_wallet []) 1000 (250 ∷ 300 ∷ []) (codes "ab") true false refl (refl, (refl, (refl, tt)))
      refl refl refl (omega arith) (omega arith) (omega arith) refl refl (inl refl)
      (test_owned (codes "COIN")) (test_wallet-PrintsUnits []) (test_wallet-PrintsUnits [])
      (test_wallet-PrintsUnits [], (test_wallet-PrintsUnits [], tt))

check-verify_example :
    (((b : Bool) × (verify test_libraries test_floats test_molecule ≡ ok b))
      ⊎ ((thrown : Exception) × (version4_view_json test_libraries test_molecule.atoms ≡ err thrown)
          × (verify test_libraries test_floats test_molecule ≡ err thrown)))
    × ((check test_libraries test_floats test_molecule ≡ ok tt) ↔ (
        (verify_continu_id test_molecule ≡ true)
        × (verify test_libraries test_floats test_molecule ≡ ok true)))
check-verify_example = check-verify test_libraries test_floats test_molecule

abbrev stray_value : Atom
stray_value = record (test_atom zeros) { isotope = codes "V"; value = codes "5" }

token_isotope_v-shadowed_example :
    token_isotope_v test_floats (test_atom zeros ∷ stray_value ∷ []) ≡ ok true
token_isotope_v-shadowed_example =
    token_isotope_v-shadowed test_floats (test_atom zeros) (stray_value ∷ []) refl
      (refl, (refl, tt)) (refl, tt)

abbrev test_hash :
    (h : Text) × (hash_atoms_base17 test_libraries test_molecule.atoms ≡ ok h)
    × (is_signable_hash h ≡ true)
test_hash =
    hash_atoms_base17-ok test_libraries test_molecule.atoms (legacy-HasView test_libraries _ _ refl)

check-altered_example :
    (verify test_libraries test_floats test_molecule ≡ ok false)
    × (check test_libraries test_floats test_molecule
        ≡ err (if verify_continu_id test_molecule then runtime_error else atoms_not_found))
check-altered_example =
    check-altered test_libraries test_floats test_molecule (test_atom zeros)
      (test_atom (codes "b") ∷ test_atom (codes "c") ∷ []) test_hash.0 refl test_hash.1
      (λ e. let nothing = ap is_empty e in let some = signable-some _ test_hash.2 in cc)
