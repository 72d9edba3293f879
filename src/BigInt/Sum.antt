-- ===== src/BigInt/Sum.antt =====
-- `CryptoBigInt::add` adds the numbers, at every size.
use knish_io_client_cpp.Base.{
  ℕ, ◌+◌, ◌-◌, ◌*◌, ◌/◌, ◌%◌, ◌^◌, ◌≤◌, ◌<◌, ◌≡◌, refl, ap, sym, ◌∙◌, List, [], ◌∷◌, ◌++◌, reverse,
  arith, length, replicate, max, All, All-append, All-replicate, All-reverse, length-append,
  length-replicate,
}
use knish_io_client_cpp.Base.Powers.{
  little, big, little-append, little-reverse, little-zeros, big-reverse,
}
use knish_io_client_cpp.BigInt.{limb_base, constant_time_add, pop_zeros, normalize, pad_limbs, add}
use native.Mathlib.Nat.{pow-suc, pow-zero}

-- Every limb is a uint32_t.
abbrev pub IsLimbs : List ℕ → Type 0
IsLimbs = All (λ l. l < limb_base)

constant_time_add_lem :
    (carry : ℕ) (a b : List ℕ)
    → length a ≡ length b
    → carry ≤ 1
    → IsLimbs a
    → IsLimbs b
    → let (result, last) = constant_time_add carry a b in
      (little limb_base result + limb_base ^ length a * last
        ≡ little limb_base a + little limb_base b + carry)
      × (last ≤ 1)
      × IsLimbs result
      × (length result ≡ length a)
unfolding constant_time_add
constant_time_add_lem carry [] [] same c ha hb = (rw pow-zero (omega arith), c, tt, refl)
constant_time_add_lem carry [] (y ∷ b) same c ha hb = absurd (omega arith)
constant_time_add_lem carry (x ∷ a) [] same c ha hb = absurd (omega arith)
constant_time_add_lem carry (x ∷ a) (y ∷ b) same c ha hb =
    let sum = (x + y + carry) % 2 ^ 64 in
    let (eq, last, limbs, size) =
      constant_time_add_lem (sum / limb_base) a b (omega arith) (omega arith) ha.1 hb.1 in
    (
      omega (
        arith,
        ap (λ (t : ℕ). limb_base * t) eq,
        ap (λ (t : ℕ). t * (constant_time_add (sum / limb_base) a b).1)
            (pow-suc limb_base (length a)),
      ),
      last,
      (omega arith, limbs),
      omega arith,
    )

big-pop_zeros : (xs : List ℕ) → big limb_base 0 (pop_zeros xs) ≡ big limb_base 0 xs
unfolding pop_zeros
big-pop_zeros [] = refl
big-pop_zeros (back ∷ []) = refl
big-pop_zeros (back ∷ next ∷ front) = ground (arith, big-pop_zeros (next ∷ front))

pub little-normalize : (xs : List ℕ) → little limb_base (normalize xs) ≡ little limb_base xs
unfolding normalize
little-normalize xs =
    little-reverse limb_base (pop_zeros (reverse xs))
    ∙ big-pop_zeros (reverse xs)
    ∙ big-reverse limb_base xs

little-pad_limbs : (xs : List ℕ) (n : ℕ) → little limb_base (pad_limbs xs n) ≡ little limb_base xs
unfolding pad_limbs
little-pad_limbs xs n =
    little-append limb_base xs _ ∙ rw (little-zeros limb_base (n - length xs)) (omega arith)

pad_limbs-IsLimbs : (xs : List ℕ) (n : ℕ) → IsLimbs xs → IsLimbs (pad_limbs xs n)
unfolding pad_limbs
pad_limbs-IsLimbs xs n h = All-append _ xs _ h (All-replicate _ (n - length xs) 0 (omega arith))

length-pad_limbs : (xs : List ℕ) (n : ℕ) → length xs ≤ n → length (pad_limbs xs n) ≡ n
unfolding pad_limbs
length-pad_limbs xs n h = omega (
  arith,
  length-append xs (replicate (n - length xs) 0),
  length-replicate {A = ℕ} (n - length xs) 0,
)

pop_zeros-IsLimbs : (xs : List ℕ) → IsLimbs xs → IsLimbs (pop_zeros xs)
unfolding pop_zeros
pop_zeros-IsLimbs [] h = h
pop_zeros-IsLimbs (back ∷ []) h = h
pop_zeros-IsLimbs (back ∷ next ∷ front) h = ground (arith, pop_zeros-IsLimbs (next ∷ front) h.1)

pub normalize-IsLimbs : (xs : List ℕ) → IsLimbs xs → IsLimbs (normalize xs)
unfolding normalize
normalize-IsLimbs xs h = All-reverse _ _ (pop_zeros-IsLimbs (reverse xs) (All-reverse _ xs h))

-- The last carry as one more limb.
add_carry : (p c : ℕ) → c ≤ 1 → p * little limb_base (c % limb_base ∷ []) ≡ p * c
add_carry p c h = ap (λ (t : ℕ). p * t) (omega arith)

-- The sum of two vectors of limbs is a vector of limbs with the sum of their numbers.
pub little-add :
    (a b : List ℕ)
    → IsLimbs a
    → IsLimbs b
    → IsLimbs (add a b) × (little limb_base (add a b) ≡ little limb_base a + little limb_base b)
unfolding add
little-add a b ha hb =
    let n = max (length a) (length b) in
    let pa = pad_limbs a n in
    let pb = pad_limbs b n in
    let la : length pa ≡ n = length-pad_limbs a n (omega arith) in
    let lb : length pb ≡ n = length-pad_limbs b n (omega arith) in
    let (eq, last, limbs, size) =
      constant_time_add_lem 0 pa pb (la ∙ sym lb) (omega arith) (pad_limbs-IsLimbs a n ha)
        (pad_limbs-IsLimbs b n hb) in
    let total = (constant_time_add 0 pa pb).0 ++ ((constant_time_add 0 pa pb).1 % limb_base ∷ []) in
    (
      normalize-IsLimbs total (All-append _ _ _ limbs (omega arith, tt)),
      little-normalize total
          ∙ little-append limb_base (constant_time_add 0 pa pb).0
              ((constant_time_add 0 pa pb).1 % limb_base ∷ [])
          ∙ rw (size, add_carry _ _ last)
              (eq ∙ rw (little-pad_limbs a n, little-pad_limbs b n) (omega arith)),
    )
