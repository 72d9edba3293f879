-- ===== src/Builders/ContinuId.antt =====
-- The molecules that end with a ContinuID atom pass `Molecule::verifyContinuId`.
use knish_io_client_cpp.Base.{
  ℕ, ◌≡◌, refl, Bool, true, Bool-cases, inl, inr, List, [], ◌∷◌, ◌++◌, any, Text, codes, same,
  Option, none, some, is_ok, is_ok-value,
}
use knish_io_client_cpp.Libraries.{Libraries}
use knish_io_client_cpp.Atom.{Atom, Meta}
use knish_io_client_cpp.Wallet.{Wallet, TokenUnit}
use knish_io_client_cpp.Units.{units_meta}
use knish_io_client_cpp.Molecule.{Molecule, has_continu_id, verify_continu_id}
use knish_io_client_cpp.Builders.{
  Clock, new_atom, continu_id_atom, add_continu_id_atom, init_token_creation, init_token_replenish,
  init_meta, init_authorization, init_wallet_creation, init_shadow_wallet_claim,
}

any-last :
    (p : Atom → Bool) (atoms : List Atom) (a : Atom) → p a ≡ true → any p (atoms ++ (a ∷ [])) ≡ true
any-last p [] a h = rw h refl
any-last p (x ∷ atoms) a h = elim (Bool-cases (p x)) [
  | inl e ↦ rw e refl
  | inr e ↦ rw e (any-last p atoms a h)
]

has_continu_id-of_any :
    (atoms : List Atom)
    → any (λ a. same a.isotope (codes "I")) atoms ≡ true
    → has_continu_id atoms ≡ true
unfolding has_continu_id
has_continu_id-of_any [] h = refl
has_continu_id-of_any (front ∷ atoms) h = elim (Bool-cases (same front.token (codes "USER"))) [
  | inl e ↦ rw e h
  | inr e ↦ rw e refl
]

continu_id_atom-isotope :
    (clock : Clock) (remainder : Option Wallet) (source : Wallet) (index : ℕ)
    → same (continu_id_atom clock remainder source index).isotope (codes "I") ≡ true
unfolding continu_id_atom new_atom
continu_id_atom-isotope clock none source index = refl
continu_id_atom-isotope clock (some r) source index = refl

pub add_continu_id_atom-verify :
    (clock : Clock) (m : Molecule) (source : Wallet) (index : ℕ)
    → verify_continu_id (add_continu_id_atom clock m source index) ≡ true
unfolding add_continu_id_atom verify_continu_id
add_continu_id_atom-verify clock m source index =
    has_continu_id-of_any (m.atoms ++ (continu_id_atom clock m.remainder_wallet source index ∷ []))
      (any-last (λ a. same a.isotope (codes "I")) m.atoms _
        (continu_id_atom-isotope clock m.remainder_wallet source index))

-- Whatever the molecule held before, where the library prints the units to be replenished, with a remainder wallet or without, what initTokenCreation,
-- initTokenReplenish, initMeta, initAuthorization, initWalletCreation and initShadowWalletClaim build passes
-- verifyContinuId.
pub builders-verify_continu_id :
    (lib : Libraries) (clock : Clock) (m : Molecule) (source other : Wallet)
    (amount meta_type meta_id : Text) (meta : Meta) (units : List TokenUnit) (encrypt : Bool)
    → is_ok (units_meta lib units) ≡ true
    → (verify_continu_id (init_token_creation clock m source other amount meta) ≡ true)
      × (verify_continu_id (init_token_replenish lib clock m source other amount units).1 ≡ true)
      × (verify_continu_id (init_meta clock m source meta meta_type meta_id) ≡ true)
      × (verify_continu_id (init_authorization clock m source encrypt) ≡ true)
      × (verify_continu_id (init_wallet_creation clock m source other meta) ≡ true)
      × (verify_continu_id (init_shadow_wallet_claim clock m source other) ≡ true)
unfolding init_token_creation init_token_replenish init_meta init_authorization init_wallet_creation
    init_shadow_wallet_claim
builders-verify_continu_id lib clock m source other amount meta_type meta_id meta units encrypt
      printed =
    let ends = λ (before : Molecule). add_continu_id_atom-verify clock before source 1 in
    (
      ends _,
      rw (is_ok-value [] (units_meta lib units) printed) (ends _),
      ends _,
      ends _,
      ends _,
      ends _,
    )
