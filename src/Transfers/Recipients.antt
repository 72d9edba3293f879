-- ===== src/Transfers/Recipients.antt =====
-- A transfer to many recipients adds up to zero.
use knish_io_client_cpp.Base.{
  ℕ, suc, ◌+◌, ◌-◌, ◌^◌, ◌≤◌, ◌<◌, ◌≡◌, refl, ap, ◌∙◌, List, [], ◌∷◌, ◌++◌, map, arith, length,
  Text, Result, ok, All,
}
use mathlib.Core.List.{append-nil, append_assoc}
use knish_io_client_cpp.Base.Int.{ℤ, pos, sub_ℕ, ◌+ℤ◌, ◌-ℤ◌, int_laws, eq_of_parts}
use knish_io_client_cpp.Base.Decimal.{decimal}
use knish_io_client_cpp.Base.Integers.{wrap}
use knish_io_client_cpp.Base.Numerals.{parse_integer-decimal, parse_integer-negative}
use knish_io_client_cpp.Libraries.{Libraries}
use knish_io_client_cpp.Atom.{Atom}
use knish_io_client_cpp.Wallet.{Wallet}
use knish_io_client_cpp.Molecule.{Molecule}
use knish_io_client_cpp.Builders.{Clock, push}
use knish_io_client_cpp.Transfers.{init_values, push_recipients, recipient_credit}
use knish_io_client_cpp.Transfers.Sums.{
  values_sum, total, wrap64, difference, push-append, value_debit-value, value_credit-value,
  value_change-value, sent_debit, sent_credit, sent_change,
}
use knish_io_client_cpp.Units.{PrintsUnits, units_meta-ok}

sum-pos : (a b : ℕ) → pos a +ℤ pos b ≡ pos (a + b)
sum-pos a b = eq_of_parts _ _ (omega int_laws)

pub values_sum-cons :
    (a : Atom) (n : ℕ) (rest : List Atom) (t : ℤ)
    → a.value ≡ decimal n
    → n < 2 ^ 63
    → values_sum rest ≡ ok t
    → values_sum (a ∷ rest) ≡ ok (pos n +ℤ t)
unfolding values_sum
values_sum-cons a n rest t e small run = rw (e, parse_integer-decimal 64 n small, run) refl

regroup : (a b : ℕ) (t : ℤ) → pos a +ℤ (pos b +ℤ t) ≡ pos (a + b) +ℤ t
regroup a b t = eq_of_parts _ _ (omega int_laws)

zero_first : (t : ℤ) → t ≡ pos 0 +ℤ t
zero_first t = eq_of_parts _ _ (omega int_laws)

nothing : (t : ℕ) → t + 0 ≡ t
nothing t = omega arith

regroup_ℕ : (t a b : ℕ) → t + a + b ≡ t + (a + b)
regroup_ℕ t a b = omega arith

-- The atoms of the recipients in order, with their amounts in decimal.
abbrev pub made_from : (Wallet → Text → ℕ → Atom) → ℕ → List Wallet → List ℕ → List Atom
made_from make index [] amounts = []
made_from make index (w ∷ recipients) [] = []
made_from make index (w ∷ recipients) (a ∷ amounts) =
    make w (decimal a) index ∷ made_from make (suc index) recipients amounts

-- The loop over the recipients, with an amount below 2^63 in all: the total, and atoms whose values add up
-- to it in front of any others.
module _ (lib : Libraries) (clock : Clock) (run_make : Wallet → Text → ℕ → Result Atom)
    (make : Wallet → Text → ℕ → Atom)
    (keeps : (w : Wallet) (s : Text) (i : ℕ) → (make w s i).value ≡ s) where
  -- The atom of a recipient is made without an exception.
  abbrev pub Makes : Wallet → Type 0
  Makes w = (s : Text) (i : ℕ) → run_make w s i ≡ ok (make w s i)

  pub push_recipients-sum :
      (m : Molecule) (t index : ℕ) (recipients : List Wallet) (amounts : List ℕ)
      → length recipients ≡ length amounts
      → t + total amounts < 2 ^ 63
      → All Makes recipients
      → (pushed : List Atom) × (next : ℕ) × (push_recipients lib clock run_make m
            (pos t)
            index
            recipients
            (map decimal amounts)
          ≡ (ok (pos (t + total amounts), next), record m { atoms = m.atoms ++ pushed }))
        × ((rest : List Atom) (r : ℤ)
            → values_sum rest ≡ ok r
            → values_sum (pushed ++ rest) ≡ ok (pos (total amounts) +ℤ r))
        × (pushed ≡ made_from make index recipients amounts)
  unfolding push_recipients
  push_recipients-sum m t index [] [] e small makes = (
    [],
    index,
    rw (append-nil m.atoms, nothing t) refl,
    λ rest r run. run ∙ ap ok (zero_first r),
    refl,
  )
  push_recipients-sum m t index [] (a ∷ amounts) e small makes = absurd (omega arith)
  push_recipients-sum m t index (w ∷ recipients) [] e small makes = absurd (omega arith)
  push_recipients-sum m t index (w ∷ recipients) (a ∷ amounts) e small makes =
      let made = make w (decimal a) index in
      let (pushed, next, run, sums, list) =
        push_recipients-sum (push m made) (t + a) (suc index) recipients amounts (omega arith)
          (omega arith) makes.1 in
      let now : wrap 64 (pos t +ℤ pos a) ≡ pos (t + a) =
        ap (wrap 64) (sum-pos t a) ∙ wrap64 (t + a) (omega arith) in
      (
        made ∷ pushed,
        next,
        rw (parse_integer-decimal 64 a (omega arith), makes.0 (decimal a) index)
            (rw (now, run)
              (rw (push-append m.atoms made pushed, regroup_ℕ t a (total amounts)) refl)),
        λ rest r later.
            values_sum-cons made a (pushed ++ rest) _ (keeps w (decimal a) index) (omega arith)
              (sums rest r later)
            ∙ ap ok (regroup a (total amounts) r),
        ap (λ l. made ∷ l) list,
      )

pub values_sum-debit :
    (a : Atom) (n : ℕ) (rest : List Atom) (t : ℤ)
    → a.value ≡ b'-' ∷ decimal n
    → n < 2 ^ 63
    → values_sum rest ≡ ok t
    → values_sum (a ∷ rest) ≡ ok (sub_ℕ 0 n +ℤ t)
unfolding values_sum
values_sum-debit a n rest t e small run = rw (e, parse_integer-negative 64 n small, run) refl

pub balanced : (b s : ℕ) → s ≤ b → sub_ℕ 0 b +ℤ (pos s +ℤ (pos (b - s) +ℤ pos 0)) ≡ pos 0
balanced b s h = eq_of_parts _ _ (grind int_laws)

recipients-Makes :
    (lib : Libraries) (clock : Clock) (recipients : List Wallet)
    → All (PrintsUnits lib) recipients
    → All
        (Makes lib clock
          (recipient_credit lib clock)
          (sent_credit lib clock)
          (value_credit-value lib clock))
        recipients
unfolding recipient_credit
recipients-Makes lib clock [] h = tt
recipients-Makes lib clock (w ∷ recipients) h =
    (λ s i. rw (units_meta-ok lib w h.0) refl, recipients-Makes lib clock recipients h.1)

-- What initValues leaves: the debit, an atom for each recipient, and the change.
pub init_values-run :
    (lib : Libraries) (clock : Clock) (m : Molecule) (source : Wallet) (recipients : List Wallet)
    (remainder : Wallet) (balance : ℕ) (amounts : List ℕ)
    → source.balance ≡ decimal balance
    → length recipients ≡ length amounts
    → total amounts ≤ balance
    → balance < 2 ^ 63
    → PrintsUnits lib source
    → PrintsUnits lib remainder
    → All (PrintsUnits lib) recipients
    → (pushed : List Atom) × (next : ℕ) × (init_values lib clock m source recipients
          (map decimal amounts)
          remainder
        ≡ (
          ok (
              ((m.atoms ++ (sent_debit lib clock source ∷ [])) ++ pushed)
              ++ (sent_change lib clock remainder (pos (balance - total amounts)) next ∷ [])),
          record m {
            molecular_hash = [];
            atoms =
                ((m.atoms ++ (sent_debit lib clock source ∷ [])) ++ pushed)
                ++ (sent_change lib clock remainder (pos (balance - total amounts)) next ∷ []);
          },
        ))
      × ((rest : List Atom) (r : ℤ)
          → values_sum rest ≡ ok r
          → values_sum (pushed ++ rest) ≡ ok (pos (total amounts) +ℤ r))
      × (pushed ≡ made_from (sent_credit lib clock) 1 recipients amounts)
unfolding init_values
init_values-run lib clock m source recipients remainder b amounts e lengths h k ps pm pr =
    let start = record m {
      molecular_hash = [];
      atoms = m.atoms ++ (sent_debit lib clock source ∷ []);
    } in
    let (pushed, next, run, sums, list) =
      push_recipients-sum lib clock (recipient_credit lib clock) (sent_credit lib clock)
        (value_credit-value lib clock) start 0 1 recipients amounts lengths (omega arith)
        (recipients-Makes lib clock recipients pr) in
    let left : wrap 64 (pos b -ℤ pos (0 + total amounts)) ≡ pos (b - total amounts) =
      ap (λ (n : ℕ). wrap 64 (pos b -ℤ pos n)) {x = 0 + total amounts} {y = total amounts}
        (omega arith)
      ∙ ap (wrap 64) (difference b (total amounts) h)
      ∙ wrap64 (b - total amounts) (omega arith) in
    (
      pushed,
      next,
      rw (units_meta-ok lib source ps, units_meta-ok lib remainder pm)
          (rw (run, e, parse_integer-decimal 64 b k) (rw left refl)),
      sums,
      list,
    )

-- A transfer to as many recipients as there are amounts, between wallets whose token units the library prints, where the balance and the amounts are written in
-- decimal, the balance is below 2^63 and the amounts are together at most the balance: no exception is
-- thrown, atoms are pushed behind the molecule's atoms, and their values add up to zero.
pub init_values-conserves :
    (lib : Libraries) (clock : Clock) (m : Molecule) (source : Wallet) (recipients : List Wallet)
    (remainder : Wallet) (balance : ℕ) (amounts : List ℕ)
    → source.balance ≡ decimal balance
    → length recipients ≡ length amounts
    → total amounts ≤ balance
    → balance < 2 ^ 63
    → PrintsUnits lib source
    → PrintsUnits lib remainder
    → All (PrintsUnits lib) recipients
    → (pushed : List Atom) × (after : Molecule) × (init_values lib clock m source recipients
          (map decimal amounts)
          remainder
        ≡ (ok after.atoms, after))
      × (after.atoms ≡ m.atoms ++ pushed)
      × (values_sum pushed ≡ ok (pos 0))
init_values-conserves lib clock m source recipients remainder b amounts e lengths h k ps pm pr =
    let (pushed, next, run, sums, _) =
      init_values-run lib clock m source recipients remainder b amounts e lengths h k ps pm pr in
    let debit = sent_debit lib clock source in
    let change = sent_change lib clock remainder (pos (b - total amounts)) next in
    let last =
      values_sum-cons change (b - total amounts) [] (pos 0)
        (value_change-value lib clock remainder (b - total amounts) next) (omega arith)
        (unfold values_sum in refl) in
    (
      debit ∷ (pushed ++ (change ∷ [])),
      record m {
        molecular_hash = [];
        atoms = ((m.atoms ++ (debit ∷ [])) ++ pushed) ++ (change ∷ []);
      },
      run,
      append_assoc (m.atoms ++ (debit ∷ [])) pushed (change ∷ [])
          ∙ push-append m.atoms debit (pushed ++ (change ∷ [])),
      values_sum-debit debit b _ _ (value_debit-value lib clock source b e) k
            (sums (change ∷ []) _ last)
          ∙ ap ok (balanced b (total amounts) h),
    )
