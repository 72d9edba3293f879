-- ===== src/Ots/Passes.antt =====
-- One pass of the loop in `Molecule::normalize`.
use knish_io_client_cpp.Base.{
  ◌+◌, ◌≤◌, ◌<◌, ◌≡◌, ◌⊎◌, refl, ap, Bool, true, false, List, [], ◌∷◌, arith, Bool-cases, inl, inr,
  length, All,
}
use knish_io_client_cpp.Base.Int.{
  ℤ, pos, negsuc, pos_part, neg_part, ◌+ℤ◌, ◌-ℤ◌, ltb_ℤ, eqb_ℤ, eq_of_parts, int_laws,
}
use knish_io_client_cpp.Ots.{total_from, normalize_step, normalize_pass}

-- A symbol value: between -8 and 8.
abbrev pub InRange : ℤ → Type 0
InRange n = (pos_part n ≤ 8) × (neg_part n ≤ 8)

abbrev pub sum : List ℤ → ℤ
sum [] = pos 0
sum (c ∷ cs) = c +ℤ sum cs

pub total_from-sum : (t : ℤ) (cs : List ℤ) → total_from t cs ≡ t +ℤ sum cs
unfolding total_from
total_from-sum t [] = eq_of_parts _ _ (omega int_laws)
total_from-sum t (c ∷ cs) = rw (total_from-sum (t +ℤ c) cs) (eq_of_parts _ _ (omega int_laws))

step-sum :
    (below : Bool) (total c : ℤ)
    → (normalize_step below total c).2 +ℤ c ≡ total +ℤ (normalize_step below total c).1
unfolding normalize_step
step-sum true total c = grind int_laws
step-sum false total c = grind int_laws

-- What a move adds to the total it adds to the symbols.
pub pass-sum :
    (below : Bool) (total : ℤ) (cs : List ℤ)
    → (normalize_pass below total cs).1 +ℤ sum cs ≡ total +ℤ sum (normalize_pass below total cs).0
unfolding normalize_pass normalize_step
pass-sum below total [] = refl
pass-sum below total (c ∷ cs) =
    let moves : (normalize_step below total c).2 +ℤ c ≡ total +ℤ (normalize_step below total c).1 =
      step-sum below total c in
    let rest = pass-sum below (normalize_step below total c).2 cs in
    grind (int_laws, ap pos_part moves, ap neg_part moves, ap pos_part rest, ap neg_part rest)

pub length-pass :
    (below : Bool) (total : ℤ) (cs : List ℤ) → length (normalize_pass below total cs).0 ≡ length cs
unfolding normalize_pass
length-pass below total [] = refl
length-pass below total (c ∷ cs) =
    ground (arith, length-pass below (normalize_step below total c).2 cs)

step-InRange : (below : Bool) (total c : ℤ) → InRange c → InRange (normalize_step below total c).1
unfolding normalize_step
step-InRange below total c h = grind int_laws

pub pass-InRange :
    (below : Bool) (total : ℤ) (cs : List ℤ)
    → All InRange cs
    → All InRange (normalize_pass below total cs).0
unfolding normalize_pass
pass-InRange below total [] h = tt
pass-InRange below total (c ∷ cs) h =
    let s = step-InRange below total c h.0 in
    let rest = pass-InRange below (normalize_step below total c).2 cs h.1 in
    ground (arith, s, rest, h.1)

pos_zero : (total : ℤ) → 0 < neg_part total → pos_part total ≡ 0
pos_zero (pos n) h = absurd (omega arith)
pos_zero (negsuc n) h = refl

one_up :
    (total : ℤ)
    → 0 < neg_part total
    → (pos_part (total +ℤ pos 1) ≡ 0) × (neg_part (total +ℤ pos 1) + 1 ≡ neg_part total)
unfolding ◌+ℤ◌
one_up (pos n) h = absurd (omega arith)
one_up (negsuc n) h = ground arith

one_down :
    (total : ℤ)
    → 0 < pos_part total
    → (neg_part (total -ℤ pos 1) ≡ 0) × (pos_part (total -ℤ pos 1) + 1 ≡ pos_part total)
unfolding ◌-ℤ◌
one_down (pos n) h = ground arith
one_down (negsuc n) h = absurd (omega arith)

high-sum : (c s : ℤ) → ltb_ℤ c (pos 8) ≡ false → neg_part s ≡ 0 → neg_part (c +ℤ s) ≡ 0
unfolding ◌+ℤ◌
high-sum c s h z = ground arith

low-sum : (c s : ℤ) → ltb_ℤ (negsuc 7) c ≡ false → pos_part s ≡ 0 → pos_part (c +ℤ s) ≡ 0
unfolding ◌+ℤ◌
low-sum c s h z = ground arith

neg_zero : (total : ℤ) → 0 < pos_part total → neg_part total ≡ 0
neg_zero (pos n) h = refl
neg_zero (negsuc n) h = absurd (omega arith)

-- A pass from below zero stays below it, and moves unless no symbol can.
pub pass-below :
    (total : ℤ) (cs : List ℤ)
    → 0 < neg_part total
    → (pos_part (normalize_pass true total cs).1 ≡ 0)
      × (neg_part (normalize_pass true total cs).1 ≤ neg_part total)
      × ((neg_part (normalize_pass true total cs).1 < neg_part total) ⊎ (neg_part (sum cs) ≡ 0))
unfolding normalize_pass normalize_step
pass-below total [] h = (pos_zero total h, omega arith, inr refl)
pass-below total (c ∷ cs) h = elim (Bool-cases (ltb_ℤ c (pos 8))) [
  | inl e ↦ rw e (elim (Bool-cases (eqb_ℤ (total +ℤ pos 1) (pos 0))) [
    | inl z ↦ rw z (let u = one_up total h in (u.0, omega arith, inl (omega arith)))
    | inr z ↦ rw z (
        let u = one_up total h in
        let r = pass-below (total +ℤ pos 1) cs (ground (arith, u, z)) in
        (r.0, omega arith, inl (omega arith)))
  ])
  | inr e ↦ rw e (
      let (r, s, t) = pass-below total cs h in
      (r, s, (elim t [ inl l ↦ inl l | inr n ↦ inr (high-sum c (sum cs) e n) ])))
]

-- A pass from above zero stays above it, and moves unless no symbol can.
pub pass-above :
    (total : ℤ) (cs : List ℤ)
    → 0 < pos_part total
    → (neg_part (normalize_pass false total cs).1 ≡ 0)
      × (pos_part (normalize_pass false total cs).1 ≤ pos_part total)
      × ((pos_part (normalize_pass false total cs).1 < pos_part total) ⊎ (pos_part (sum cs) ≡ 0))
unfolding normalize_pass normalize_step
pass-above total [] h = (neg_zero total h, omega arith, inr refl)
pass-above total (c ∷ cs) h = elim (Bool-cases (ltb_ℤ (negsuc 7) c)) [
  | inl e ↦ rw e (elim (Bool-cases (eqb_ℤ (total -ℤ pos 1) (pos 0))) [
    | inl z ↦ rw z (let u = one_down total h in (u.0, omega arith, inl (omega arith)))
    | inr z ↦ rw z (
        let u = one_down total h in
        let r = pass-above (total -ℤ pos 1) cs (ground (arith, u, z)) in
        (r.0, omega arith, inl (omega arith)))
  ])
  | inr e ↦ rw e (
      let (r, s, t) = pass-above total cs h in
      (r, s, (elim t [ inl l ↦ inl l | inr n ↦ inr (low-sum c (sum cs) e n) ])))
]
