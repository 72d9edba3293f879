-- ===== src/Check/Built.antt =====
-- The molecules that src/Molecule.cpp builds without moving value are signed, and pass `Molecule::check`.
use knish_io_client_cpp.Base.{
  ℕ, ◌≡◌, ◌∙◌, ◌⊎◌, refl, sym, ap, Bool, true, false, List, [], ◌∷◌, ◌++◌, is_empty, Text, codes,
  ok, ◌>>=◌, All, Option, none, some, is_ok, value_or, is_ok-value,
}
use mathlib.Core.Path.{subst}
use knish_io_client_cpp.Base.Int.{pos}
use knish_io_client_cpp.Libraries.{Libraries}
use knish_io_client_cpp.Floats.{Floats}
use knish_io_client_cpp.Atom.{Atom, Meta, has_version}
use knish_io_client_cpp.Atom.Digest.{HasView, legacy-HasView}
use knish_io_client_cpp.Units.{units_meta}
use knish_io_client_cpp.Wallet.{Wallet, TokenUnit, generate_wallet_key, generate_wallet_address}
use knish_io_client_cpp.Molecule.{Molecule, signing_ots_version, sign}
use knish_io_client_cpp.Molecule.Assign.{Unsigned}
use knish_io_client_cpp.Builders.{
  Clock, new_atom, push, clear_hash, continu_id_atom, add_continu_id_atom, init_token_creation,
  replenish_atom, init_token_replenish, init_meta, init_authorization, init_wallet_creation,
  init_shadow_wallet_claim,
}
use knish_io_client_cpp.Builders.ContinuId.{add_continu_id_atom-verify}
use knish_io_client_cpp.Conservation.{has_isotope, is_cross, token_isotope_v, token_loop}
use knish_io_client_cpp.Check.{verify, check}
use knish_io_client_cpp.Check.Signed.{check-sign}

-- An isotope that the conservation checks do not look at.
abbrev IsPlain : Atom → Type 0
IsPlain a = (is_cross a ≡ false) × (has_isotope (codes "V") a ≡ false)

-- The molecule is signed without an exception, and `check` and `verify` accept what `sign` leaves.
unfoldable pub Accepted : Libraries → Floats → Molecule → Text → Bool → Bool → Type 0
Accepted lib f m secret anonymous compressed =
    (last : Text) × (signed : Molecule) × (sign lib m secret anonymous compressed
      ≡ (ok last, signed))
    × (check lib f signed ≡ ok tt)
    × (verify lib f signed ≡ ok true)

continu_id_atom-IsPlain :
    (clock : Clock) (r : Option Wallet) (source : Wallet) (index : ℕ)
    → IsPlain (continu_id_atom clock r source index)
unfolding continu_id_atom new_atom
continu_id_atom-IsPlain clock none source index = (refl, refl)
continu_id_atom-IsPlain clock (some r) source index = (refl, refl)

continu_id_atom-Unsigned :
    (clock : Clock) (r : Option Wallet) (source : Wallet) (index : ℕ)
    → Unsigned (continu_id_atom clock r source index)
unfolding continu_id_atom new_atom
continu_id_atom-Unsigned clock none source index = refl
continu_id_atom-Unsigned clock (some r) source index = refl

module _ (lib : Libraries) (f : Floats) where
  plain-conserved : (a c : Atom) → IsPlain a → IsPlain c → token_isotope_v f (a ∷ c ∷ []) ≡ ok true
  unfolding token_isotope_v token_loop
  plain-conserved a c (ab, av) (cb, cv) = rw (ab, cb) (rw (av, cv) refl)

  -- What the builders below have in common: one atom of the source wallet, and the ContinuID atom.
  unfoldable built : Clock → Molecule → Wallet → Atom → Molecule
  built clock m source a = add_continu_id_atom clock (push (clear_hash m) a) source 1

  built-atoms :
      (clock : Clock) (m : Molecule) (source : Wallet) (a : Atom)
      → m.atoms ≡ []
      → (built clock m source a).atoms ≡ a ∷ continu_id_atom clock m.remainder_wallet source 1 ∷ []
  unfolding built add_continu_id_atom
  built-atoms clock m source a e =
      ap (λ l. (l ++ (a ∷ [])) ++ (continu_id_atom clock m.remainder_wallet source 1 ∷ [])) e

  built-Accepted :
      (clock : Clock) (m : Molecule) (source : Wallet) (a : Atom) (secret : Text)
      (anonymous compressed : Bool)
      → m.atoms ≡ []
      → is_empty secret ≡ false
      → is_empty a.position ≡ false
      → (signing_ots_version m ≡ pos 1) ⊎ (signing_ots_version m ≡ pos 2)
      → (generate_wallet_key lib secret a.token a.position (signing_ots_version m)
          >>= generate_wallet_address lib)
        ≡ ok a.wallet_address
      → Unsigned a
      → IsPlain a
      → has_version a ≡ false
      → Accepted lib f (built clock m source a) secret anonymous compressed
  unfolding Accepted built add_continu_id_atom signing_ots_version
  built-Accepted clock m source a secret anonymous compressed e hs hp hv owned fresh plain legacy =
      let c = continu_id_atom clock m.remainder_wallet source 1 in
      let shape = built-atoms clock m source a e in
      check-sign lib f (built clock m source a) secret anonymous compressed a (c ∷ []) shape
        (subst (All Unsigned) (sym shape)
          (fresh, (continu_id_atom-Unsigned clock m.remainder_wallet source 1, tt)))
        hs hp hv owned (add_continu_id_atom-verify clock (push (clear_hash m) a) source 1)
        (ap (token_isotope_v f) shape
          ∙ plain-conserved a c plain (continu_id_atom-IsPlain clock m.remainder_wallet source 1))
        (subst (HasView lib) (sym shape) (legacy-HasView lib a (c ∷ []) legacy))

  -- A molecule without atoms, given a source wallet at version 1 or 2 that has a position and whose address is
  -- that of the key the secret generates, and units to be replenished that the library prints: what initTokenCreation, initTokenReplenish, initMeta,
  -- initAuthorization, initWalletCreation and initShadowWalletClaim build of it is signed without an
  -- exception, compressed or not, with a remainder wallet or without, and the signed molecule passes `check`
  -- and `verify`.
  pub builders-check :
      (clock : Clock) (m : Molecule) (source other : Wallet) (secret : Text)
      (anonymous compressed : Bool) (amount meta_type meta_id : Text) (meta : Meta)
      (units : List TokenUnit) (encrypt : Bool)
      → m.atoms ≡ []
      → is_empty secret ≡ false
      → is_empty source.position ≡ false
      → (signing_ots_version m ≡ pos 1) ⊎ (signing_ots_version m ≡ pos 2)
      → (generate_wallet_key lib secret source.token source.position (signing_ots_version m)
          >>= generate_wallet_address lib)
        ≡ ok source.address
      → is_ok (units_meta lib units) ≡ true
      → (Accepted lib f
          (init_token_creation clock m source other amount meta)
          secret
          anonymous
          compressed)
        × ((replenished : Molecule) × (init_token_replenish lib clock m source other amount units
              ≡ (ok replenished.atoms, replenished))
            × Accepted lib f replenished secret anonymous compressed)
        × (Accepted lib f
            (init_meta clock m source meta meta_type meta_id)
            secret
            anonymous
            compressed)
        × (Accepted lib f (init_authorization clock m source encrypt) secret anonymous compressed)
        × (Accepted lib f
            (init_wallet_creation clock m source other meta)
            secret
            anonymous
            compressed)
        × (Accepted lib f
            (init_shadow_wallet_claim clock m source other)
            secret
            anonymous
            compressed)
  unfolding init_token_creation init_token_replenish init_meta init_authorization
      init_wallet_creation init_shadow_wallet_claim built new_atom replenish_atom
  builders-check clock m source other secret anonymous compressed amount meta_type meta_id meta
        units encrypt e hs hp hv owned printed =
      let accept =
        λ (a : Atom) (p : a.position ≡ source.position) (t : a.token ≡ source.token)
            (w : a.wallet_address ≡ source.address) (fresh : Unsigned a) (plain : IsPlain a)
            (legacy : has_version a ≡ false).
          built-Accepted clock m source a secret anonymous compressed e hs (rw p hp) hv
            (rw (p, t, w) owned) fresh plain legacy in
      (
        accept _ refl refl refl refl (refl, refl) refl,
        (
          built clock m source
              (replenish_atom clock source other amount units (value_or [] (units_meta lib units))),
          rw (is_ok-value [] (units_meta lib units) printed) refl,
          accept
              (replenish_atom clock source other amount units (value_or [] (units_meta lib units)))
              refl refl refl refl (refl, refl) refl,
        ),
        accept _ refl refl refl refl (refl, refl) refl,
        accept _ refl refl refl refl (refl, refl) refl,
        accept _ refl refl refl refl (refl, refl) refl,
        accept _ refl refl refl refl (refl, refl) refl,
      )
