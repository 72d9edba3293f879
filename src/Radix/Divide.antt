-- ===== src/Radix/Divide.antt =====
-- One long division over the limbs.
use knish_io_client_cpp.Base.{
  ℕ, ◌+◌, ◌*◌, ◌/◌, ◌%◌, ◌^◌, ◌≤◌, ◌<◌, ◌≡◌, ◌≢◌, refl, ap, ◌∙◌, List, [], ◌∷◌, ◌++◌, arith, ◌==◌,
  if◌then◌else◌, All-append, not, ◌||◌, Bool-cases, inl, inr, ==_iff, bit_or, is_empty,
}
use knish_io_client_cpp.Base.Bits.{bit_or-disjoint}
use knish_io_client_cpp.Base.Powers.{big, big-append}
use knish_io_client_cpp.BigInt.{limb_base}
use knish_io_client_cpp.BigInt.Sum.{IsLimbs}
use knish_io_client_cpp.Radix.{divide_limbs}
use native.Mathlib.Nat.{mod-lt, div-add-mod, div-lt_iff_lt-mul, mod-eq_of_lt}

-- No zero limb in front.
abbrev pub Leads : List ℕ → Type 0
Leads [] = Unit {0}
Leads (x ∷ xs) = 0 < x

Leads-append : (xs : List ℕ) (y : ℕ) → Leads xs → xs ≢ [] → Leads (xs ++ (y ∷ []))
Leads-append [] y h ne = absurd (ne refl)
Leads-append (x ∷ xs) y h ne = h

-- The vector that the quotient becomes in one round.
abbrev grow : List ℕ → ℕ → List ℕ
grow quotient q = if not (is_empty quotient) || not (q == 0) then quotient ++ (q ∷ []) else quotient

grow_lem :
    (quotient : List ℕ) (q : ℕ)
    → q < limb_base
    → IsLimbs quotient
    → Leads quotient
    → (big limb_base 0 (grow quotient q) ≡ big limb_base 0 quotient * limb_base + q)
      × IsLimbs (grow quotient q)
      × Leads (grow quotient q)
grow_lem [] q hq hl lead = elim (Bool-cases (q == 0)) [
  | inl e ↦ rw (e, (==_iff q 0).0 e) (refl, tt, tt)
  | inr e ↦ rw e (refl, (omega arith, tt), ground arith)
]
grow_lem (x ∷ xs) q hq hl lead =
    (big-append limb_base 0 (x ∷ xs) (q ∷ []), All-append _ (x ∷ xs) (q ∷ []) hl (hq, tt), lead)

module _ (base : ℕ) (two : 2 ≤ base) (bounded : base ≤ 256) where
  current :
      (rem l : ℕ)
      → rem < base
      → l < limb_base
      → bit_or (rem * 2 ^ 32 % 2 ^ 64) l ≡ rem * limb_base + l
  current rem l hr hl =
      let wide : rem * 2 ^ 32 % 2 ^ 64 ≡ rem * 2 ^ 32 = omega arith in
      rw wide (bit_or-disjoint 32 rem l hl)

  quotient_limb :
      (rem l : ℕ) → rem < base → l < limb_base → (rem * limb_base + l) / base < limb_base
  quotient_limb rem l hr hl = (div-lt_iff_lt-mul (omega arith)).1 (grind arith)

  divide_step :
      (v rem l : ℕ)
      → (v * limb_base + (rem * limb_base + l) / base) * base + (rem * limb_base + l) % base
        ≡ (v * base + rem) * limb_base + l
  divide_step v rem l = omega (arith, div-add-mod (rem * limb_base + l) base)

  divide_limbs_step :
      (l : ℕ) (limbs : List ℕ) (rem : ℕ) (quotient : List ℕ)
      → rem < base
      → l < limb_base
      → divide_limbs base (l ∷ limbs) rem quotient
        ≡ divide_limbs base limbs
            ((rem * limb_base + l) % base)
            (grow quotient ((rem * limb_base + l) / base))
  unfolding divide_limbs
  divide_limbs_step l limbs rem quotient hr hl =
      ap (λ (c : ℕ). divide_limbs base limbs (c % base) (grow quotient (c / base % limb_base)))
        (current rem l hr hl)
      ∙ ap (λ (q : ℕ). divide_limbs base limbs ((rem * limb_base + l) % base) (grow quotient q))
          (mod-eq_of_lt (quotient_limb rem l hr hl))

  -- Quotient and remainder of the number so far followed by the limbs left.
  pub divide_limbs_lem :
      (limbs : List ℕ) (rem : ℕ) (quotient : List ℕ)
      → rem < base
      → IsLimbs limbs
      → IsLimbs quotient
      → Leads quotient
      → let (quotient', rem') = divide_limbs base limbs rem quotient in
        (big limb_base 0 quotient' * base + rem'
          ≡ big limb_base (big limb_base 0 quotient * base + rem) limbs)
        × (rem' < base)
        × IsLimbs quotient'
        × Leads quotient'
  divide_limbs_lem [] rem quotient hr hl hq lead = unfold divide_limbs in (refl, hr, hq, lead)
  divide_limbs_lem (l ∷ limbs) rem quotient hr hl hq lead =
      let cur = rem * limb_base + l in
      let q = cur / base in
      let small : q < limb_base = quotient_limb rem l hr hl.0 in
      let (value, hq', lead') = grow_lem quotient q small hq lead in
      let (rest, hr', limbs', leads') =
        divide_limbs_lem limbs (cur % base) (grow quotient q) (mod-lt cur (omega arith)) hl.1 hq'
          lead' in
      rw (divide_limbs_step l limbs rem quotient hr hl.0) (
        rest
            ∙ ap (λ (t : ℕ). big limb_base t limbs)
                (ap (λ (t : ℕ). t * base + cur % base) value
                  ∙ divide_step (big limb_base 0 quotient) rem l),
        hr',
        limbs',
        leads',
      )
