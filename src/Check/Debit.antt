-- ===== src/Check/Debit.antt =====
-- A debit with the V atoms that make it up, as src/Molecule.cpp builds them, is signed and passes
-- `Molecule::check`.
use knish_io_client_cpp.Base.{
  ℕ, suc, ◌+◌, ◌^◌, ◌<◌, ◌≡◌, ◌∙◌, ◌⊎◌, refl, sym, ap, Bool, true, false, List, [], ◌∷◌, ◌++◌,
  is_empty, length, Text, codes, same, ok, ◌>>=◌, All, arith,
}
use mathlib.Core.Path.{subst}
use knish_io_client_cpp.Base.Int.{pos}
use knish_io_client_cpp.Base.Decimal.{decimal}
use knish_io_client_cpp.Libraries.{Libraries}
use knish_io_client_cpp.Floats.{Floats, AreExact}
use knish_io_client_cpp.Atom.{Atom, has_version}
use knish_io_client_cpp.Atom.Digest.{HasView, legacy-HasView}
use knish_io_client_cpp.Wallet.{Wallet, generate_wallet_key, generate_wallet_address}
use knish_io_client_cpp.Molecule.{Molecule, signing_ots_version, has_continu_id, verify_continu_id}
use knish_io_client_cpp.Molecule.Assign.{Unsigned}
use knish_io_client_cpp.Builders.{Clock, new_atom}
use knish_io_client_cpp.Transfers.{value_debit, value_credit, value_change}
use knish_io_client_cpp.Transfers.Sums.{
  total, value_debit-value, value_credit-value, value_change-value, sent_debit, sent_credit,
  sent_change,
}
use knish_io_client_cpp.Transfers.Recipients.{made_from}
use knish_io_client_cpp.Conservation.{token_isotope_v}
use knish_io_client_cpp.Conservation.Transfer.{IsValueOf, Credits, token_isotope_v-transfer}
use knish_io_client_cpp.Check.Signed.{check-sign}
use knish_io_client_cpp.Check.Built.{Accepted}

continu_id-other_token :
    (front : Atom) (others : List Atom)
    → same front.token (codes "USER") ≡ false
    → has_continu_id (front ∷ others) ≡ true
unfolding has_continu_id
continu_id-other_token front others h = rw h refl

module _ (lib : Libraries) (f : Floats) (exact : AreExact f) where
  transfer-Accepted :
      (m : Molecule) (debit : Atom) (atoms : List Atom) (ns : List ℕ) (b : ℕ) (secret : Text)
      (anonymous compressed : Bool)
      → m.atoms ≡ debit ∷ atoms
      → All Unsigned (debit ∷ atoms)
      → (IsValueOf debit.token debit) × (debit.value ≡ b'-' ∷ decimal b)
      → Credits debit.token atoms ns
      → total ns ≡ b
      → 0 < b
      → b < 2 ^ 53
      → same debit.token (codes "USER") ≡ false
      → is_empty secret ≡ false
      → is_empty debit.position ≡ false
      → (signing_ots_version m ≡ pos 1) ⊎ (signing_ots_version m ≡ pos 2)
      → (generate_wallet_key lib secret debit.token debit.position (signing_ots_version m)
          >>= generate_wallet_address lib)
        ≡ ok debit.wallet_address
      → has_version debit ≡ false
      → Accepted lib f m secret anonymous compressed
  unfolding Accepted verify_continu_id
  transfer-Accepted m debit atoms ns b secret anonymous compressed shape fresh (v, e) credits h some
        l other hs hp hv owned legacy =
      check-sign lib f m secret anonymous compressed debit atoms shape
        (subst (All Unsigned) (sym shape) fresh) hs hp hv owned
        (ap has_continu_id shape ∙ continu_id-other_token debit atoms other)
        (ap (token_isotope_v f) shape
          ∙ token_isotope_v-transfer f exact debit atoms ns b v e credits h some l)
        (subst (HasView lib) (sym shape) (legacy-HasView lib debit atoms legacy))

  -- The atoms of a transfer.
  module _ (clock : Clock) where
    pub value_credit-IsValueOf :
        (token : Text) (w : Wallet) (s : Text) (i : ℕ)
        → w.token ≡ token
        → IsValueOf token (sent_credit lib clock w s i)
    unfolding value_credit new_atom
    value_credit-IsValueOf token w s i e = (refl, refl, e)

    pub value_credit-Unsigned :
        (w : Wallet) (s : Text) (i : ℕ) → Unsigned (sent_credit lib clock w s i)
    unfolding value_credit new_atom
    value_credit-Unsigned w s i = refl

    value_change-IsValueOf :
        (token : Text) (w : Wallet) (n i : ℕ)
        → w.token ≡ token
        → IsValueOf token (sent_change lib clock w (pos n) i)
    unfolding value_change
    value_change-IsValueOf token w n i e = value_credit-IsValueOf token w _ i e

    pub value_change-Unsigned :
        (w : Wallet) (n i : ℕ) → Unsigned (sent_change lib clock w (pos n) i)
    unfolding value_change
    value_change-Unsigned w n i = value_credit-Unsigned w _ i

    pub change-Credits :
        (token : Text) (w : Wallet) (n i : ℕ)
        → w.token ≡ token
        → Credits token (sent_change lib clock w (pos n) i ∷ []) (n ∷ [])
    change-Credits token w n i e =
        Credits.credit (value_change-IsValueOf token w n i e) (value_change-value lib clock w n i)
          Credits.no_credits

    pub made_from-Credits :
        (token : Text) (i : ℕ) (recipients : List Wallet) (amounts : List ℕ) (rest : List Atom)
        (ns : List ℕ)
        → length recipients ≡ length amounts
        → All (λ w. w.token ≡ token) recipients
        → Credits token rest ns
        → Credits token
            (made_from (sent_credit lib clock) i recipients amounts ++ rest)
            (amounts ++ ns)
    made_from-Credits token i [] [] rest ns e h c = c
    made_from-Credits token i [] (a ∷ amounts) rest ns e h c = absurd (omega arith)
    made_from-Credits token i (w ∷ recipients) [] rest ns e h c = absurd (omega arith)
    made_from-Credits token i (w ∷ recipients) (a ∷ amounts) rest ns e h c =
        Credits.credit (value_credit-IsValueOf token w (decimal a) i h.0)
          (value_credit-value lib clock w (decimal a) i)
          (made_from-Credits token (suc i) recipients amounts rest ns (omega arith) h.1 c)

    pub made_from-Unsigned :
        (i : ℕ) (recipients : List Wallet) (amounts : List ℕ)
        → All Unsigned (made_from (sent_credit lib clock) i recipients amounts)
    made_from-Unsigned i [] amounts = tt
    made_from-Unsigned i (w ∷ recipients) [] = tt
    made_from-Unsigned i (w ∷ recipients) (a ∷ amounts) =
        (value_credit-Unsigned w (decimal a) i, made_from-Unsigned (suc i) recipients amounts)

    pub total-last : (ns : List ℕ) (n : ℕ) → total (ns ++ (n ∷ [])) ≡ total ns + n
    total-last [] n = omega arith
    total-last (k ∷ ns) n = omega (arith, total-last ns n)

    -- The source's debit, with the atoms that make it up.
    pub debit-Accepted :
        (m : Molecule) (source : Wallet) (atoms : List Atom) (ns : List ℕ) (b : ℕ) (secret : Text)
        (anonymous compressed : Bool)
        → m.atoms ≡ sent_debit lib clock source ∷ atoms
        → All Unsigned atoms
        → source.balance ≡ decimal b
        → Credits source.token atoms ns
        → total ns ≡ b
        → 0 < b
        → b < 2 ^ 53
        → same source.token (codes "USER") ≡ false
        → is_empty secret ≡ false
        → is_empty source.position ≡ false
        → (signing_ots_version m ≡ pos 1) ⊎ (signing_ots_version m ≡ pos 2)
        → (generate_wallet_key lib secret source.token source.position (signing_ots_version m)
            >>= generate_wallet_address lib)
          ≡ ok source.address
        → Accepted lib f m secret anonymous compressed
    unfolding value_debit new_atom
    debit-Accepted m source atoms ns b secret anonymous compressed shape fresh e credits h some l
          other hs hp hv owned =
        transfer-Accepted m (sent_debit lib clock source) atoms ns b secret anonymous compressed
          shape (refl, fresh) ((refl, refl, refl), value_debit-value lib clock source b e) credits h
          some l other hs hp hv owned refl
