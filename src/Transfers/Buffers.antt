-- ===== src/Transfers/Buffers.antt =====
-- Deposits to a buffer and withdrawals from it add up to zero.
use knish_io_client_cpp.Base.{
  ℕ, ◌+◌, ◌-◌, ◌^◌, ◌≤◌, ◌<◌, ◌≡◌, refl, ap, ◌∙◌, List, [], ◌∷◌, ◌++◌, map, arith, length, Text, ok,
  All-intro, true, is_ok, value_or, is_ok-value,
}
use mathlib.Core.List.{append_assoc}
use knish_io_client_cpp.Base.Int.{pos, ◌-ℤ◌}
use knish_io_client_cpp.Base.Decimal.{decimal, to_string}
use knish_io_client_cpp.Base.Integers.{wrap}
use knish_io_client_cpp.Base.Numerals.{parse_integer-decimal}
use knish_io_client_cpp.Libraries.{Libraries}
use knish_io_client_cpp.Units.{PrintsUnits, units_of, units_meta-ok}
use knish_io_client_cpp.Atom.{Atom, Meta}
use knish_io_client_cpp.Wallet.{Wallet}
use knish_io_client_cpp.Molecule.{Molecule}
use knish_io_client_cpp.Builders.{Clock, new_atom}
use knish_io_client_cpp.Transfers.{
  rates_meta, init_deposit_buffer, init_withdraw_buffer, deposit_debit, deposit_credit,
  deposit_change, withdraw_debit, withdraw_credit, withdraw_change,
}
use knish_io_client_cpp.Transfers.Sums.{
  values_sum, total, wrap64, difference, push-append, three-push, three-sum,
}
use knish_io_client_cpp.Transfers.Recipients.{
  push_recipients-sum, values_sum-cons, values_sum-debit, balanced,
}

module _ (lib : Libraries) (clock : Clock) where
  deposit-values :
      (source buffer remainder : Wallet) (b v : ℕ) (buffer_meta : Meta)
      → source.balance ≡ decimal b
      → v ≤ b
      → b < 2 ^ 63
      → values_sum (
          deposit_debit lib clock source
          ∷ deposit_credit lib clock source buffer (decimal v) buffer_meta
          ∷ deposit_change lib clock source remainder (pos (b - v))
          ∷ [])
        ≡ ok (pos 0)
  unfolding deposit_debit deposit_credit deposit_change new_atom to_string
  deposit-values source buffer remainder b v buffer_meta e h k =
      three-sum _ _ _ b v h k (ap (λ t. b'-' ∷ t) e) refl refl

  -- A deposit of at most the balance, where balance and amount are written in decimal and the balance is
  -- below 2^63, at trade rates that the library prints: no exception is thrown, three atoms are pushed behind the molecule's
  -- atoms, and the values of the V and B atoms among them add up to zero.
  pub init_deposit_buffer-conserves :
      (m : Molecule) (source buffer remainder : Wallet) (balance amount : ℕ)
      (rates : List (Text × Text))
      → source.balance ≡ decimal balance
      → amount ≤ balance
      → balance < 2 ^ 63
      → is_ok (rates_meta lib clock rates) ≡ true
      → (pushed : List Atom) × (after : Molecule) × (init_deposit_buffer lib clock m source buffer
            remainder
            (decimal amount)
            rates
          ≡ (ok after.atoms, after))
        × (after.atoms ≡ m.atoms ++ pushed)
        × (values_sum pushed ≡ ok (pos 0))
  unfolding init_deposit_buffer
  init_deposit_buffer-conserves m source buffer remainder b v rates e h k pr =
      let buffer_meta = value_or [] (rates_meta lib clock rates) in
      let debit = deposit_debit lib clock source in
      let credit = deposit_credit lib clock source buffer (decimal v) buffer_meta in
      let change = deposit_change lib clock source remainder (pos (b - v)) in
      let after = record m {
        molecular_hash = [];
        atoms = ((m.atoms ++ (debit ∷ [])) ++ (credit ∷ [])) ++ (change ∷ []);
      } in
      let left : wrap 64 (pos b -ℤ pos v) ≡ pos (b - v) =
        ap (wrap 64) (difference b v h) ∙ wrap64 (b - v) (omega arith) in
      (
        debit ∷ credit ∷ change ∷ [],
        after,
        rw (is_ok-value [] (rates_meta lib clock rates) pr) (
            rw (e, parse_integer-decimal 64 b k, parse_integer-decimal 64 v (omega arith))
              (rw left refl)),
        three-push m.atoms debit credit change,
        deposit-values source buffer remainder b v buffer_meta e h k,
      )

  withdraw_credit-value :
      (source w : Wallet) (amount : Text) (index : ℕ)
      → (withdraw_credit lib clock source w amount index).value ≡ amount
  unfolding withdraw_credit new_atom
  withdraw_credit-value source w amount index = refl

  withdraw_debit-value :
      (source : Wallet) (b : ℕ)
      → source.balance ≡ decimal b
      → (withdraw_debit lib clock source (units_of lib source)).value ≡ b'-' ∷ decimal b
  unfolding withdraw_debit new_atom
  withdraw_debit-value source b e = ap (λ t. b'-' ∷ t) e

  withdraw_change-value :
      (w : Wallet) (n index : ℕ) → (withdraw_change lib clock w (pos n) index).value ≡ decimal n
  unfolding withdraw_change new_atom to_string
  withdraw_change-value w n index = refl

  -- A withdrawal from a wallet whose token units the library prints, for as many recipients as there are amounts, where the balance and the amounts are written
  -- in decimal, the balance is below 2^63 and the amounts are together at most the balance: no exception is
  -- thrown, atoms are pushed behind the molecule's atoms, and the values of the B and V atoms among them
  -- add up to zero.
  pub init_withdraw_buffer-conserves :
      (m : Molecule) (source : Wallet) (recipients : List Wallet) (remainder : Wallet) (balance : ℕ)
      (amounts : List ℕ)
      → source.balance ≡ decimal balance
      → length recipients ≡ length amounts
      → total amounts ≤ balance
      → balance < 2 ^ 63
      → PrintsUnits lib source
      → (pushed : List Atom) × (after : Molecule) × (init_withdraw_buffer lib clock m source
            recipients
            (map decimal amounts)
            remainder
          ≡ (ok after.atoms, after))
        × (after.atoms ≡ m.atoms ++ pushed)
        × (values_sum pushed ≡ ok (pos 0))
  unfolding init_withdraw_buffer
  init_withdraw_buffer-conserves m source recipients remainder b amounts e lengths h k ps =
      let debit = withdraw_debit lib clock source (units_of lib source) in
      let start = record m { molecular_hash = []; atoms = m.atoms ++ (debit ∷ []) } in
      let (pushed, next, run, sums, _) =
        push_recipients-sum lib clock (λ r s i. ok (withdraw_credit lib clock source r s i))
          (withdraw_credit lib clock source) (withdraw_credit-value source) start 0 1 recipients
          amounts lengths (omega arith) (All-intro _ (λ w s i. refl) recipients) in
      let change = withdraw_change lib clock remainder (pos (b - total amounts)) next in
      let after = record start { atoms = ((m.atoms ++ (debit ∷ [])) ++ pushed) ++ (change ∷ []) } in
      let left : wrap 64 (pos b -ℤ pos (0 + total amounts)) ≡ pos (b - total amounts) =
        ap (λ (n : ℕ). wrap 64 (pos b -ℤ pos n)) {x = 0 + total amounts} {y = total amounts}
          (omega arith)
        ∙ ap (wrap 64) (difference b (total amounts) h)
        ∙ wrap64 (b - total amounts) (omega arith) in
      let last =
        values_sum-cons change (b - total amounts) [] (pos 0)
          (withdraw_change-value remainder (b - total amounts) next) (omega arith)
          (unfold values_sum in refl) in
      (
        debit ∷ (pushed ++ (change ∷ [])),
        after,
        rw (units_meta-ok lib source ps) (rw (run, e, parse_integer-decimal 64 b k) (rw left refl)),
        append_assoc (m.atoms ++ (debit ∷ [])) pushed (change ∷ [])
            ∙ push-append m.atoms debit (pushed ++ (change ∷ [])),
        values_sum-debit debit b _ _ (withdraw_debit-value source b e) k (sums (change ∷ []) _ last)
            ∙ ap ok (balanced b (total amounts) h),
      )
