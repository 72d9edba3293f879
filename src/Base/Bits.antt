-- ===== src/Base/Bits.antt =====
-- `(q << k) | r` for `r < 2 ^ k` is a sum, at every width.
use Prim.Native.Nat.{ℕ, zero, suc, ◌+◌, ◌-◌, ◌*◌, ◌/◌, ◌%◌, ◌^◌, ◌≤◌, ◌<◌, max}
use Prim.Native.Nat.{bit_or, digits, bit_or-bitwise}
use mathlib.Core.Path.{◌≡◌, refl, ap, ◌∙◌}
use native.Mathlib.Omega.{arith}
use native.Mathlib.Nat.{pow-suc}

-- The recursion on binary digits that `bit_or` stands for, with its fuel last.
abbrev or_with : ℕ → ℕ → ℕ → ℕ
or_with x y fuel = digits (λ rest. rest) max fuel x y

-- One more unit of fuel changes nothing where there is one for each unit of the first number.
or_with_next : (x y fuel : ℕ) → x ≤ fuel → or_with x y (suc fuel) ≡ or_with x y fuel
or_with_next zero y zero h = refl
or_with_next zero y (suc fuel) h = refl
or_with_next (suc x) y zero h = absurd (omega arith)
or_with_next (suc x) y (suc fuel) h =
    omega (arith, or_with_next (suc x / 2) (y / 2) fuel (omega arith))

or_with_more : (x y fuel extra : ℕ) → x ≤ fuel → or_with x y (fuel + extra) ≡ or_with x y fuel
or_with_more x y fuel zero h = ap (λ (n : ℕ). or_with x y n) {x = fuel + 0} {y = fuel} (omega arith)
or_with_more x y fuel (suc extra) h =
    ap (λ (n : ℕ). or_with x y n) {x = fuel + suc extra} {y = suc (fuel + extra)} (omega arith)
    ∙ or_with_next x y (fuel + extra) (omega arith)
    ∙ or_with_more x y fuel extra h

or_with_half : (x y : ℕ) → or_with (suc x / 2) (y / 2) x ≡ or_with (suc x / 2) (y / 2) (suc x / 2)
or_with_half x y =
    ap (λ (n : ℕ). or_with (suc x / 2) (y / 2) n) {x = x} {y = suc x / 2 + (x - suc x / 2)}
      (omega arith)
    ∙ or_with_more (suc x / 2) (y / 2) (suc x / 2) (x - suc x / 2) (omega arith)

pub zero-bit_or : (y : ℕ) → bit_or 0 y ≡ y
zero-bit_or y = bit_or-bitwise 0 y

-- The lowest digit, and the others.
pub bit_or_step : (x y : ℕ) → bit_or x y ≡ max (x % 2) (y % 2) + 2 * bit_or (x / 2) (y / 2)
bit_or_step zero y =
    let (whole, half) : (bit_or 0 y ≡ y) × (bit_or 0 (y / 2) ≡ y / 2) =
      (zero-bit_or y, zero-bit_or (y / 2)) in
    omega arith
bit_or_step (suc x) y =
    let all_digits = bit_or-bitwise (suc x) y in
    let upper_digits = bit_or-bitwise (suc x / 2) (y / 2) in
    omega (arith, all_digits, upper_digits, or_with_half x y)

bit_or_nothing : (fuel x : ℕ) → x ≤ fuel → bit_or x 0 ≡ x
bit_or_nothing zero zero h = refl
bit_or_nothing (suc fuel) zero h = refl
bit_or_nothing zero (suc x) h = absurd (omega arith)
bit_or_nothing (suc fuel) (suc x) h =
    let upper = bit_or_nothing fuel (suc x / 2) (omega arith) in
    omega (arith, upper, bit_or_step (suc x) 0)

-- The bits of `q * 2 ^ k` and of `r` do not meet.
pub bit_or-disjoint : (k q r : ℕ) → r < 2 ^ k → bit_or (q * 2 ^ k) r ≡ q * 2 ^ k + r
bit_or-disjoint zero q r h = ground (arith, bit_or_nothing q q)
bit_or-disjoint (suc k) q r h =
    let e : q * 2 ^ suc k ≡ 2 * (q * 2 ^ k) = omega (arith, ap (λ (t : ℕ). q * t) (pow-suc 2 k)) in
    ground (
      arith,
      e,
      pow-suc 2 k,
      bit_or_step (q * 2 ^ suc k) r,
      bit_or-disjoint k q (r / 2) (omega (arith, pow-suc 2 k)),
    )

-- The same with the fields in the other order.
pub bit_or-disjoint_right : (k q r : ℕ) → r < 2 ^ k → bit_or r (q * 2 ^ k) ≡ q * 2 ^ k + r
bit_or-disjoint_right zero q r h = let e : r ≡ 0 = omega arith in rw e (zero-bit_or _ ∙ omega arith)
bit_or-disjoint_right (suc k) q r h =
    let e : q * 2 ^ suc k ≡ 2 * (q * 2 ^ k) = omega (arith, ap (λ (t : ℕ). q * t) (pow-suc 2 k)) in
    ground (
      arith,
      e,
      pow-suc 2 k,
      bit_or_step r (q * 2 ^ suc k),
      bit_or-disjoint_right k q (r / 2) (omega (arith, pow-suc 2 k)),
    )
