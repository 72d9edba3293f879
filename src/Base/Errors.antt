-- ===== src/Base/Errors.antt =====
-- A call that may throw: its value, or the class of the exception. Messages are left out.
use mathlib.Core.Path.{◌≡◌, refl}
use mathlib.Core.Logic.{◌⊎◌, inl, inr}
use mathlib.Core.Bool.{Bool, true, false}

-- The exception classes that the modelled code throws or meets, by the name of the C++ class.
pub data Exception : Type 0 where
  invalid_argument runtime_error logic_error out_of_range json_error : Exception
  atoms_not_found signature_malformed signature_mismatch knish_io_exception : Exception
  secret_storage_exception decryption_failed : Exception

-- What a call leaves: the exception that it threw, or the value that it returned.
pub data Result {μ} (X : Type μ) : Type μ where
  err : Exception → Result X
  ok : X → Result X

infixl 5 ◌>>=◌ ◌>>◌
-- The rest of a body runs on a value and is skipped by an exception.
abbrev pub ◌>>=◌ {μ ν} : {X : Type μ} {Y : Type ν} → Result X → (X → Result Y) → Result Y
err thrown >>= rest = err thrown
ok x >>= rest = rest x

-- `if (!test) throw e;`
abbrev pub require : Bool → Exception → Result (Unit {0})
require false thrown = err thrown
require true thrown = ok tt

-- The same where the value is of no use.
abbrev pub ◌>>◌ {ν} : {Y : Type ν} → Result (Unit {0}) → Result Y → Result Y
err thrown >> rest = err thrown
ok done >> rest = rest

-- `try { m } catch (const std::exception &) { throw e; }`: all the classes above derive from it.
abbrev pub rethrow_as {ℓ} : {A : Type ℓ} → Exception → Result A → Result A
rethrow_as e (ok a) = ok a
rethrow_as e (err _) = err e

abbrev pub is_ok {ℓ} : {A : Type ℓ} → Result A → Bool
is_ok (ok a) = true
is_ok (err e) = false

-- The value, with one for a call that threw.
abbrev pub value_or {ℓ} : {A : Type ℓ} → A → Result A → A
value_or default (ok a) = a
value_or default (err e) = default

pub is_ok-value {ℓ} :
    {A : Type ℓ} (default : A) (r : Result A) → is_ok r ≡ true → r ≡ ok (value_or default r)
is_ok-value default (ok a) h = refl
is_ok-value default (err e) h = cc

pub Result-cases {ℓ} :
    {A : Type ℓ} (r : Result A) → ((e : Exception) × (r ≡ err e)) ⊎ ((a : A) × (r ≡ ok a))
Result-cases (err e) = inl (e, refl)
Result-cases (ok a) = inr (a, refl)
