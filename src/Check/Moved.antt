-- ===== src/Check/Moved.antt =====
-- What `Molecule::initValue` and `Molecule::initValues` build is signed, and passes `Molecule::check`.
use knish_io_client_cpp.Base.{
  ℕ, ◌-◌, ◌^◌, ◌≤◌, ◌<◌, ◌≡◌, ◌⊎◌, sym, ap, Bool, false, List, [], ◌∷◌, ◌++◌, map, is_empty, length,
  Text, codes, same, ok, ◌>>=◌, All, All-append, arith,
}
use mathlib.Core.Path.{subst}
use knish_io_client_cpp.Base.Int.{pos}
use knish_io_client_cpp.Base.Decimal.{decimal}
use knish_io_client_cpp.Libraries.{Libraries}
use knish_io_client_cpp.Floats.{Floats, AreExact}
use knish_io_client_cpp.Units.{PrintsUnits}
use knish_io_client_cpp.Wallet.{Wallet, generate_wallet_key, generate_wallet_address}
use knish_io_client_cpp.Molecule.{Molecule, signing_ots_version}
use knish_io_client_cpp.Molecule.Assign.{Unsigned}
use knish_io_client_cpp.Builders.{Clock}
use knish_io_client_cpp.Transfers.{init_value, init_values}
use knish_io_client_cpp.Transfers.Sums.{
  total, value_credit-value, init_value-run, sent_debit, sent_credit, sent_change,
}
use knish_io_client_cpp.Transfers.Recipients.{init_values-run}
use knish_io_client_cpp.Conservation.Transfer.{Credits}
use knish_io_client_cpp.Check.Built.{Accepted}
use knish_io_client_cpp.Check.Debit.{
  debit-Accepted, value_credit-Unsigned, value_change-Unsigned, value_credit-IsValueOf,
  change-Credits, made_from-Unsigned, made_from-Credits, total-last,
}

module _ (lib : Libraries) (f : Floats) (exact : AreExact f) (clock : Clock) where
  -- A molecule without atoms and a source wallet at version 1 or 2 that has a position, and whose address is
  -- that of the key the secret generates, where `double` is exact on integers below 2^53. A transfer of at
  -- most the balance, a positive decimal number below 2^31, between wallets of one token other than "USER" whose
  -- token units the library prints:
  -- `initValue` throws no exception, what it leaves is signed without one, and the signed molecule passes
  -- `check` and `verify`.
  pub init_value-check :
      (m : Molecule) (source recipient remainder : Wallet) (balance amount : ℕ) (secret : Text)
      (anonymous compressed : Bool)
      → m.atoms ≡ []
      → (recipient.token ≡ source.token) × (remainder.token ≡ source.token)
      → same source.token (codes "USER") ≡ false
      → source.balance ≡ decimal balance
      → amount ≤ balance
      → 0 < balance
      → balance < 2 ^ 31
      → is_empty secret ≡ false
      → is_empty source.position ≡ false
      → (signing_ots_version m ≡ pos 1) ⊎ (signing_ots_version m ≡ pos 2)
      → (generate_wallet_key lib secret source.token source.position (signing_ots_version m)
          >>= generate_wallet_address lib)
        ≡ ok source.address
      → PrintsUnits lib source
      → PrintsUnits lib recipient
      → PrintsUnits lib remainder
      → (after : Molecule) × (init_value lib clock m source recipient remainder (decimal amount)
          ≡ (ok after.atoms, after))
        × Accepted lib f after secret anonymous compressed
  unfolding signing_ots_version
  init_value-check m source recipient remainder b v secret anonymous compressed none (tr, tm) other
        e h some l hs hp hv owned ps pr pm =
      let credit = sent_credit lib clock recipient (decimal v) 1 in
      let change = sent_change lib clock remainder (pos (b - v)) 2 in
      (
        _,
        init_value-run lib clock m source recipient remainder b v e h l ps pr pm,
        debit-Accepted lib f exact clock _ source (credit ∷ change ∷ []) (v ∷ (b - v) ∷ []) b secret
            anonymous compressed
            (ap (λ l. ((l ++ (sent_debit lib clock source ∷ [])) ++ (credit ∷ [])) ++ (change ∷ []))
              none)
            (
              value_credit-Unsigned lib f exact clock recipient (decimal v) 1,
              (value_change-Unsigned lib f exact clock remainder (b - v) 2, tt),
            )
            e
            (Credits.credit
              (value_credit-IsValueOf lib f exact clock source.token recipient (decimal v) 1 tr)
              (value_credit-value lib clock recipient (decimal v) 1)
              (change-Credits lib f exact clock source.token remainder (b - v) 2 tm))
            (omega arith) some (omega arith) other hs hp hv owned,
      )

  -- The same of `initValues`: a transfer to as many recipients of the token as there are amounts, written in
  -- decimal and together at most the balance, a positive decimal number below 2^53.
  pub init_values-check :
      (m : Molecule) (source : Wallet) (recipients : List Wallet) (remainder : Wallet) (balance : ℕ)
      (amounts : List ℕ) (secret : Text) (anonymous compressed : Bool)
      → m.atoms ≡ []
      → All (λ w. w.token ≡ source.token) (remainder ∷ recipients)
      → length recipients ≡ length amounts
      → same source.token (codes "USER") ≡ false
      → source.balance ≡ decimal balance
      → total amounts ≤ balance
      → 0 < balance
      → balance < 2 ^ 53
      → is_empty secret ≡ false
      → is_empty source.position ≡ false
      → (signing_ots_version m ≡ pos 1) ⊎ (signing_ots_version m ≡ pos 2)
      → (generate_wallet_key lib secret source.token source.position (signing_ots_version m)
          >>= generate_wallet_address lib)
        ≡ ok source.address
      → PrintsUnits lib source
      → PrintsUnits lib remainder
      → All (PrintsUnits lib) recipients
      → (after : Molecule) × (init_values lib clock m source recipients
            (map decimal amounts)
            remainder
          ≡ (ok after.atoms, after))
        × Accepted lib f after secret anonymous compressed
  unfolding signing_ots_version
  init_values-check m source recipients remainder b amounts secret anonymous compressed none tokens
        lengths other e h some l hs hp hv owned ps pm pr =
      let (pushed, next, run, _, list) =
        init_values-run lib clock m source recipients remainder b amounts e lengths h (omega arith)
          ps pm pr in
      let debit = sent_debit lib clock source in
      let change = sent_change lib clock remainder (pos (b - total amounts)) next in
      (
        _,
        run,
        debit-Accepted lib f exact clock _ source (pushed ++ (change ∷ []))
            (amounts ++ ((b - total amounts) ∷ [])) b secret anonymous compressed
            (ap (λ l. ((l ++ (debit ∷ [])) ++ pushed) ++ (change ∷ [])) none)
            (All-append Unsigned pushed (change ∷ [])
              (subst (All Unsigned) (sym list)
                (made_from-Unsigned lib f exact clock 1 recipients amounts))
              (value_change-Unsigned lib f exact clock remainder (b - total amounts) next, tt))
            e
            (subst
              (λ made.
                Credits source.token (made ++ (change ∷ []))
                  (amounts ++ ((b - total amounts) ∷ [])))
              (sym list)
              (made_from-Credits lib f exact clock source.token 1 recipients amounts _ _ lengths
                tokens.1
                (change-Credits lib f exact clock source.token remainder (b - total amounts) next
                  tokens.0)))
            (omega (arith, total-last lib f exact clock amounts (b - total amounts))) some l other
            hs hp hv owned,
      )
