-- ===== src/Check.antt =====
-- `Molecule::verify` and `Molecule::check` of src/Molecule.cpp.
pub mod Outcomes
pub mod Signed
pub mod Built
pub mod Debit
pub mod Moved
use knish_io_client_cpp.Base.{
  Bool, true, false, not, ◌&&◌, if◌then◌else◌, is_empty, Result, ok, err, ◌>>=◌, ◌>>◌, require,
  is_ok, atoms_not_found, runtime_error,
}
use knish_io_client_cpp.Libraries.{Libraries}
use knish_io_client_cpp.Floats.{Floats}
use knish_io_client_cpp.Molecule.{Molecule, verify_continu_id, verify_molecular_hash, verify_ots}
use knish_io_client_cpp.Conservation.{verify_token_isotope_v}

-- `try { tokenValid = …; } catch (const std::exception&) { tokenValid = false; }`
abbrev pub or_false : Result Bool → Bool
or_false (ok valid) = valid
or_false (err thrown) = false

unfoldable pub token_valid : Floats → Molecule → Bool
token_valid f m = or_false (verify_token_isotope_v f m)

module _ (lib : Libraries) (f : Floats) where
  unfoldable pub verify : Molecule → Result Bool
  verify m = do
    hash_valid ← verify_molecular_hash lib m
    ok (hash_valid && token_valid f m && is_ok (verify_ots lib m))

  unfoldable pub check : Molecule → Result (Unit {0})
  check m =
      if is_empty m.atoms
      then err atoms_not_found
      else if not (verify_continu_id m)
      then err atoms_not_found
      else do
        hash_valid ← verify_molecular_hash lib m
        require hash_valid runtime_error
        verify_ots lib m
        require (token_valid f m) runtime_error
