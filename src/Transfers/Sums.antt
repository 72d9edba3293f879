-- ===== src/Transfers/Sums.antt =====
-- The values of the atoms that a transfer pushes add up to zero.
use knish_io_client_cpp.Base.{
  ℕ, ◌+◌, ◌-◌, ◌^◌, ◌≤◌, ◌<◌, ◌≡◌, refl, ap, ◌∙◌, List, [], ◌∷◌, ◌++◌, arith, Text, Result, ok,
  ◌>>=◌,
}
use knish_io_client_cpp.Base.Int.{ℤ, pos, sub_ℕ, ◌+ℤ◌, ◌-ℤ◌, int_laws, eq_of_parts}
use knish_io_client_cpp.Base.Decimal.{decimal, to_string}
use knish_io_client_cpp.Base.Integers.{wrap, stoll}
use knish_io_client_cpp.Base.Numerals.{parse_integer-decimal, parse_integer-negative}
use knish_io_client_cpp.Libraries.{Libraries}
use knish_io_client_cpp.Atom.{Atom}
use knish_io_client_cpp.Wallet.{Wallet}
use knish_io_client_cpp.Molecule.{Molecule}
use knish_io_client_cpp.Units.{PrintsUnits, units_of, units_meta-ok}
use knish_io_client_cpp.Builders.{Clock, new_atom}
use knish_io_client_cpp.Transfers.{init_value, value_debit, value_credit, value_change}

-- The sum of the atoms' values, read as integers.
unfoldable pub values_sum : List Atom → Result ℤ
values_sum [] = ok (pos 0)
values_sum (a ∷ atoms) = do value ← stoll a.value; rest ← values_sum atoms; ok (value +ℤ rest)

abbrev pub total : List ℕ → ℕ
total [] = 0
total (a ∷ amounts) = a + total amounts

pub wrap32 : (n : ℕ) → n < 2 ^ 31 → wrap 32 (pos n) ≡ pos n
unfolding wrap
wrap32 n h = ground arith

pub wrap64 : (n : ℕ) → n < 2 ^ 63 → wrap 64 (pos n) ≡ pos n
unfolding wrap
wrap64 n h = ground arith

pub difference : (b v : ℕ) → v ≤ b → pos b -ℤ pos v ≡ pos (b - v)
difference b v h = eq_of_parts _ _ (omega int_laws)

zero-sum : (b s : ℕ) → s ≤ b → sub_ℕ 0 b +ℤ (pos s +ℤ (pos (b - s) +ℤ pos 0)) ≡ pos 0
zero-sum b s h = eq_of_parts _ _ (grind int_laws)

-- Three atoms with the values of a transfer.
pub three-sum :
    (a c r : Atom) (b v : ℕ)
    → v ≤ b
    → b < 2 ^ 63
    → a.value ≡ b'-' ∷ decimal b
    → c.value ≡ decimal v
    → r.value ≡ decimal (b - v)
    → values_sum (a ∷ c ∷ r ∷ []) ≡ ok (pos 0)
unfolding values_sum
three-sum a c r b v h k ea ec er =
    rw
      (
        ea,
        ec,
        er,
        parse_integer-negative 64 b k,
        parse_integer-decimal 64 v (omega arith),
        parse_integer-decimal 64 (b - v) (omega arith),
        zero-sum b v h,
      )
      refl

-- Pushing behind a list, and then appending.
pub push-append :
    (atoms : List Atom) (a : Atom) (rest : List Atom)
    → (atoms ++ (a ∷ [])) ++ rest ≡ atoms ++ (a ∷ rest)
push-append [] a rest = refl
push-append (x ∷ atoms) a rest = ap (λ t. x ∷ t) (push-append atoms a rest)

pub three-push :
    (atoms : List Atom) (a b c : Atom)
    → ((atoms ++ (a ∷ [])) ++ (b ∷ [])) ++ (c ∷ []) ≡ atoms ++ (a ∷ b ∷ c ∷ [])
three-push atoms a b c =
    push-append (atoms ++ (a ∷ [])) b (c ∷ []) ∙ push-append atoms a (b ∷ c ∷ [])

module _ (lib : Libraries) (clock : Clock) where
  -- The atoms of a transfer between wallets whose units are printed.
  abbrev pub sent_debit : Wallet → Atom
  sent_debit w = value_debit lib clock w (units_of lib w)

  abbrev pub sent_credit : Wallet → Text → ℕ → Atom
  sent_credit w amount index = value_credit lib clock w amount index (units_of lib w)

  abbrev pub sent_change : Wallet → ℤ → ℕ → Atom
  sent_change w amount index = value_change lib clock w amount index (units_of lib w)

  pub value_debit-value :
      (w : Wallet) (b : ℕ) → w.balance ≡ decimal b → (sent_debit w).value ≡ b'-' ∷ decimal b
  unfolding value_debit new_atom
  value_debit-value w b e = ap (λ t. b'-' ∷ t) e

  pub value_credit-value :
      (w : Wallet) (amount : Text) (index : ℕ) → (sent_credit w amount index).value ≡ amount
  unfolding value_credit new_atom
  value_credit-value w amount index = refl

  pub value_change-value :
      (w : Wallet) (n : ℕ) (index : ℕ) → (sent_change w (pos n) index).value ≡ decimal n
  unfolding value_change to_string
  value_change-value w n index = value_credit-value w (decimal n) index

  -- What initValue leaves: the debit, the recipient's atom, and the change.
  pub init_value-run :
      (m : Molecule) (source recipient remainder : Wallet) (balance amount : ℕ)
      → source.balance ≡ decimal balance
      → amount ≤ balance
      → balance < 2 ^ 31
      → PrintsUnits lib source
      → PrintsUnits lib recipient
      → PrintsUnits lib remainder
      → init_value lib clock m source recipient remainder (decimal amount) ≡ (
        ok (
            ((m.atoms ++ (sent_debit source ∷ []))
              ++ (sent_credit recipient (decimal amount) 1 ∷ []))
            ++ (sent_change remainder (pos (balance - amount)) 2 ∷ [])),
        record m {
          molecular_hash = [];
          atoms =
              ((m.atoms ++ (sent_debit source ∷ []))
                ++ (sent_credit recipient (decimal amount) 1 ∷ []))
              ++ (sent_change remainder (pos (balance - amount)) 2 ∷ []);
        },
      )
  unfolding init_value
  init_value-run m source recipient remainder b v e h k ps pr pm =
      let left : wrap 32 (pos b -ℤ pos v) ≡ pos (b - v) =
        ap (wrap 32) (difference b v h) ∙ wrap32 (b - v) (omega arith) in
      rw
        (
          units_meta-ok lib source ps,
          units_meta-ok lib recipient pr,
          units_meta-ok lib remainder pm,
        )
        (rw (e, parse_integer-decimal 32 b k, parse_integer-decimal 32 v (omega arith))
          (rw left refl))

  -- A transfer of at most the balance between wallets whose token units the library prints, where balance and amount are written in decimal and are below 2^31:
  -- no exception is thrown, three atoms are pushed behind the molecule's atoms, and their values add up to
  -- zero.
  pub init_value-conserves :
      (m : Molecule) (source recipient remainder : Wallet) (balance amount : ℕ)
      → source.balance ≡ decimal balance
      → amount ≤ balance
      → balance < 2 ^ 31
      → PrintsUnits lib source
      → PrintsUnits lib recipient
      → PrintsUnits lib remainder
      → (pushed : List Atom) × (after : Molecule) × (init_value lib clock m source recipient
            remainder
            (decimal amount)
          ≡ (ok after.atoms, after))
        × (after.atoms ≡ m.atoms ++ pushed)
        × (values_sum pushed ≡ ok (pos 0))
  init_value-conserves m source recipient remainder b v e h k ps pr pm =
      let debit = sent_debit source in
      let credit = sent_credit recipient (decimal v) 1 in
      let change = sent_change remainder (pos (b - v)) 2 in
      (
        debit ∷ credit ∷ change ∷ [],
        record m {
          molecular_hash = [];
          atoms = ((m.atoms ++ (debit ∷ [])) ++ (credit ∷ [])) ++ (change ∷ []);
        },
        init_value-run m source recipient remainder b v e h k ps pr pm,
        three-push m.atoms debit credit change,
        three-sum debit credit change b v h (omega arith) (value_debit-value source b e)
            (value_credit-value recipient (decimal v) 1) (value_change-value remainder (b - v) 2),
      )
