-- ===== src/Transfers.antt =====
-- The functions of src/Molecule.cpp that move value: transfers, buffers and fusion. Each changes the
-- molecule and returns a copy of its atoms, or throws and leaves what it had pushed. `clock` gives the time
-- that the constructor of `Atom` reads, by the index of the atom.
pub mod Fusion
pub mod Sums
pub mod Recipients
pub mod Buffers
use knish_io_client_cpp.Base.{
  ℕ, suc, ◌+◌, ◌-◌, Bool, true, false, not, ◌&&◌, ◌||◌, List, [], ◌∷◌, ◌++◌, map, any, ltb,
  if◌then◌else◌, length, is_empty, take, replicate, ◌==◌, Text, codes, same, Result, ok, err, ◌>>=◌,
  ◌>>◌, require, Exception, out_of_range, knish_io_exception, Option, none, some,
}
use knish_io_client_cpp.Base.Int.{ℤ, pos, ◌+ℤ◌, ◌-ℤ◌}
use knish_io_client_cpp.Base.Decimal.{decimal, to_string}
use knish_io_client_cpp.Base.Integers.{wrap, stoi, stoll}
use knish_io_client_cpp.Json.{Json, json_array, Fields, put}
use knish_io_client_cpp.Libraries.{Libraries}
use knish_io_client_cpp.Atom.{Atom, Meta}
use knish_io_client_cpp.Wallet.{Wallet, TokenUnit}
use knish_io_client_cpp.Units.{unit_triple, units_meta, id_in_list, split}
use knish_io_client_cpp.Molecule.{Molecule, attempt}
use knish_io_client_cpp.Builders.{Clock, new_atom, push, clear_hash}

-- A V or B atom of a wallet.
abbrev atom_of : Clock → Wallet → Text → Text → Text → Text → Text → Meta → ℕ → Atom
atom_of clock w isotope token value meta_type meta_id meta index =
    new_atom clock w.position w.address isotope token value w.batch_id meta_type meta_id meta index

abbrev done : Molecule → Result (List Atom) × Molecule
done m = (ok m.atoms, m)

unfoldable pub put_all : List (Text × Text) → Fields → Fields
put_all [] fields = fields
put_all ((key, value) ∷ pairs) fields = put_all pairs (put key (Json.text value) fields)

module _ (lib : Libraries) (clock : Clock) where
  -- The atoms of a transfer: the whole balance leaves the source, a recipient gets its amount, and the
  -- remainder wallet gets the change.
  unfoldable pub value_debit : Wallet → Meta → Atom
  value_debit source source_meta =
      atom_of clock source (codes "V") source.token (b'-' ∷ source.balance) [] [] source_meta 0

  unfoldable pub value_credit : Wallet → Text → ℕ → Meta → Atom
  value_credit r amount index recipient_meta =
      atom_of clock r (codes "V") r.token amount (codes "walletBundle") r.bundle recipient_meta
        index

  unfoldable pub value_change : Wallet → ℤ → ℕ → Meta → Atom
  value_change r amount index remainder_meta =
      value_credit r (to_string amount) index remainder_meta

  -- Of the two parsers, whose order the language leaves open, the one on the balance runs first.
  unfoldable pub init_value :
      Molecule → Wallet → Wallet → Wallet → Text → Result (List Atom) × Molecule
  init_value m source recipient remainder value =
      let cleared = clear_hash m in
      attempt cleared (units_meta lib source.token_units) (λ source_meta.
        let debited = push cleared (value_debit source source_meta) in
        attempt debited (units_meta lib recipient.token_units) (λ recipient_meta.
          let pushed = push debited (value_credit recipient value 1 recipient_meta) in
          attempt pushed (units_meta lib remainder.token_units) (λ remainder_meta.
            attempt pushed (stoi source.balance) (λ balance. attempt pushed (stoi value) (λ amount.
              done (
                push pushed
                  (value_change remainder (wrap 32 (balance -ℤ amount)) 2 remainder_meta)))))))

  -- The loop over the recipients: the total, and the next index. The source does not test that there is an
  -- amount for each recipient; reading past the last is the error `out_of_range` here.
  unfoldable pub push_recipients :
      (Wallet → Text → ℕ → Result Atom)
      → Molecule
      → ℤ
      → ℕ
      → List Wallet
      → List Text
      → Result (ℤ × ℕ) × Molecule
  push_recipients make m total index [] amounts = (ok (total, index), m)
  push_recipients make m total index (recipient ∷ recipients) [] = (err out_of_range, m)
  push_recipients make m total index (recipient ∷ recipients) (amount ∷ amounts) =
      attempt m (stoll amount) (λ parsed. attempt m (make recipient amount index) (λ atom.
        push_recipients make (push m atom) (wrap 64 (total +ℤ parsed)) (suc index) recipients
          amounts))

  -- The atom of one recipient of `initValues`.
  unfoldable pub recipient_credit : Wallet → Text → ℕ → Result Atom
  recipient_credit recipient amount index =
      units_meta lib recipient.token_units >>= λ recipient_meta.
      ok (value_credit recipient amount index recipient_meta)

  unfoldable pub init_values :
      Molecule → Wallet → List Wallet → List Text → Wallet → Result (List Atom) × Molecule
  init_values m source recipients amounts remainder =
      let cleared = clear_hash m in
      attempt cleared (units_meta lib source.token_units) (λ source_meta.
        let (run, pushed) =
          push_recipients recipient_credit (push cleared (value_debit source source_meta)) (pos 0) 1
            recipients amounts in
        attempt pushed run (λ t.
          attempt pushed (units_meta lib remainder.token_units) (λ remainder_meta.
            attempt pushed (stoll source.balance) (λ balance. done (
              push pushed
                (value_change remainder (wrap 64 (balance -ℤ t.0)) t.1 remainder_meta))))))

  -- The atoms of a deposit: the change goes back to the source's bundle.
  unfoldable pub deposit_debit : Wallet → Atom
  deposit_debit source =
      atom_of clock source (codes "V") source.token (b'-' ∷ source.balance) [] [] [] 0

  -- The `tradeRates` meta, left out when there are no rates.
  unfoldable pub rates_meta : List (Text × Text) → Result Meta
  rates_meta trade_rates =
      if is_empty trade_rates
      then ok []
      else (lib.dump (Json.object (put_all trade_rates Fields.end)) >>= λ rates.
          ok ((codes "tradeRates", rates) ∷ []))

  unfoldable pub deposit_credit : Wallet → Wallet → Text → Meta → Atom
  deposit_credit source buffer amount buffer_meta =
      atom_of clock buffer (codes "B") buffer.token amount (codes "walletBundle") source.bundle
        buffer_meta 1

  unfoldable pub deposit_change : Wallet → Wallet → ℤ → Atom
  deposit_change source remainder amount =
      atom_of clock remainder (codes "V") remainder.token (to_string amount) (codes "walletBundle")
        source.bundle [] 2

  unfoldable pub init_deposit_buffer :
      Molecule
      → Wallet
      → Wallet
      → Wallet
      → Text
      → List (Text × Text)
      → Result (List Atom) × Molecule
  init_deposit_buffer m source buffer remainder amount trade_rates =
      let debited = push (clear_hash m) (deposit_debit source) in
      attempt debited (rates_meta trade_rates) (λ buffer_meta.
        let pushed = push debited (deposit_credit source buffer amount buffer_meta) in
        attempt pushed (stoll source.balance) (λ balance. attempt pushed (stoll amount) (λ parsed.
          done (push pushed (deposit_change source remainder (wrap 64 (balance -ℤ parsed)))))))

  -- The atoms of a withdrawal, which stay in the source's token for the recipients.
  unfoldable pub withdraw_debit : Wallet → Meta → Atom
  withdraw_debit source source_meta =
      atom_of clock source (codes "B") source.token (b'-' ∷ source.balance) (codes "walletBundle")
        source.bundle source_meta 0

  unfoldable pub withdraw_credit : Wallet → Wallet → Text → ℕ → Atom
  withdraw_credit source r amount index =
      atom_of clock r (codes "V") source.token amount (codes "walletBundle") r.bundle [] index

  unfoldable pub withdraw_change : Wallet → ℤ → ℕ → Atom
  withdraw_change r amount index =
      atom_of clock r (codes "B") r.token (to_string amount) (codes "walletBundle") r.bundle []
        index

  unfoldable pub init_withdraw_buffer :
      Molecule → Wallet → List Wallet → List Text → Wallet → Result (List Atom) × Molecule
  init_withdraw_buffer m source recipients amounts remainder =
      let cleared = clear_hash m in
      attempt cleared (units_meta lib source.token_units) (λ source_meta.
        let (run, pushed) =
          push_recipients (λ r amount index. ok (withdraw_credit source r amount index))
            (push cleared (withdraw_debit source source_meta)) (pos 0) 1 recipients amounts in
        attempt pushed run (λ t. attempt pushed (stoll source.balance) (λ balance.
          done (push pushed (withdraw_change remainder (wrap 64 (balance -ℤ t.0)) t.1)))))
