-- ===== src/Units/Split.antt =====
-- Splitting the token units of a wallet loses none and makes none.
use knish_io_client_cpp.Base.{
  ◌≡◌, refl, Bool, true, false, Bool-cases, inl, inr, List, [], ◌∷◌, ◌++◌, All, Text, is_empty, not,
  any, Option,
}
use mathlib.Core.List.{Permᴰ}
use mathlib.Core.List.Permᴰ
use knish_io_client_cpp.Wallet.{TokenUnit, Wallet}
use knish_io_client_cpp.Units.{split, split_units, split_units_multi, id_in_list}

-- The units sent pass the test and the units kept fail it.
split-sorted :
    (sends : TokenUnit → Bool) (units : List TokenUnit)
    → All (λ u. sends u ≡ true) (split sends units).0
      × All (λ u. sends u ≡ false) (split sends units).1
unfolding split
split-sorted sends [] = (tt, tt)
split-sorted sends (u ∷ units) = elim (Bool-cases (sends u)) [
  | inl e ↦ rw e (let r = split-sorted sends units in ((e, r.0), r.1))
  | inr e ↦ rw e (let r = split-sorted sends units in (r.0, (e, r.1)))
]

middle :
    (xs : List TokenUnit) (u : TokenUnit) (ys : List TokenUnit)
    → Permᴰ (xs ++ (u ∷ ys)) (u ∷ (xs ++ ys))
middle [] u ys = Permᴰ.refl (u ∷ ys)
middle (x ∷ xs) u ys = Permᴰ.trans (Permᴰ.cons refl (middle xs u ys)) (Permᴰ.swap refl refl)

split-perm :
    (sends : TokenUnit → Bool) (units : List TokenUnit)
    → Permᴰ ((split sends units).0 ++ (split sends units).1) units
unfolding split
split-perm sends [] = Permᴰ.nil
split-perm sends (u ∷ units) = elim (Bool-cases (sends u)) [
  | inl e ↦ rw e (Permᴰ.cons refl (split-perm sends units))
  | inr e ↦ rw e (
      Permᴰ.trans (middle (split sends units).0 u (split sends units).1)
        (Permᴰ.cons refl (split-perm sends units)))
]

-- With at least one id given, the units of the wallet and of the remainder wallet afterwards are together
-- the wallet's units before, in some order; the wallet keeps those whose id is given, and the remainder
-- wallet has those whose id is not.
pub split_units-partition :
    (w : Wallet) (id : Text) (ids : List Text) (remainder : Wallet) (recipient : Option Wallet)
    → Permᴰ
        ((split_units w (id ∷ ids) remainder recipient).0.token_units
          ++ (split_units w (id ∷ ids) remainder recipient).1.token_units)
        w.token_units
      × All
          (λ u. id_in_list u.id (id ∷ ids) ≡ true)
          (split_units w (id ∷ ids) remainder recipient).0.token_units
      × All
          (λ u. id_in_list u.id (id ∷ ids) ≡ false)
          (split_units w (id ∷ ids) remainder recipient).1.token_units
unfolding split_units
split_units-partition w id ids remainder recipient =
    let sends = λ (u : TokenUnit). id_in_list u.id (id ∷ ids) in
    let r = split-sorted sends w.token_units in (split-perm sends w.token_units, r.0, r.1)

-- With at least one id in the lists of the recipients, the units of the wallet and of the remainder wallet
-- afterwards are together the wallet's units before, in some order; the wallet keeps those whose id is in
-- some list, and the remainder wallet has those whose id is in none.
pub split_units_multi-partition :
    (w : Wallet) (lists : List (List Text)) (recipients : List Wallet) (remainder : Wallet)
    → any (λ ids. not (is_empty ids)) lists ≡ true
    → Permᴰ
        ((split_units_multi w lists recipients remainder).0.token_units
          ++ (split_units_multi w lists recipients remainder).2.token_units)
        w.token_units
      × All
          (λ u. any (id_in_list u.id) lists ≡ true)
          (split_units_multi w lists recipients remainder).0.token_units
      × All
          (λ u. any (id_in_list u.id) lists ≡ false)
          (split_units_multi w lists recipients remainder).2.token_units
unfolding split_units_multi
split_units_multi-partition w lists recipients remainder h =
    let sends = λ (u : TokenUnit). any (id_in_list u.id) lists in
    let r = split-sorted sends w.token_units in rw h (split-perm sends w.token_units, r.0, r.1)
