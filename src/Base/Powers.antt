-- ===== src/Base/Powers.antt =====
-- Powers of the native numbers, and numbers written in a base.
use Prim.Native.Nat.{ℕ, zero, suc, ◌+◌, ◌*◌, ◌^◌, ◌<◌}
use mathlib.Core.Path.{◌≡◌, refl, ap, sym, ◌∙◌}
use mathlib.Core.List.{List, [], ◌∷◌, ◌++◌, reverse, reverse-append, reverse-reverse}
use native.Mathlib.Omega.{arith}
use native.Mathlib.Nat.{pow-suc, pow-zero, mul_assoc, add-zero}
use knish_io_client_cpp.Base.Lists.{length, replicate, All}

pub pow-add : (b m n : ℕ) → b ^ (m + n) ≡ b ^ m * b ^ n
pow-add b m zero = rw (add-zero, pow-zero) (omega arith)
pow-add b m (suc n) =
    let e : m + suc n ≡ suc (m + n) = omega arith in
    rw (e, pow-suc, pow-suc, pow-add b m n) (mul_assoc (b ^ m) (b ^ n) b)

pub pow-mul : (b m n : ℕ) → b ^ (m * n) ≡ (b ^ m) ^ n
pow-mul b m zero = let e : m * zero ≡ 0 = omega arith in rw (e, pow-zero, pow-zero)
pow-mul b m (suc n) =
    let e : m * suc n ≡ m * n + m = omega arith in
    ap (λ (t : ℕ). b ^ t) e
    ∙ pow-add b (m * n) m
    ∙ ap (λ (t : ℕ). t * b ^ m) (pow-mul b m n)
    ∙ sym (pow-suc (b ^ m) n)

-- The number with the given digits, least significant first.
abbrev pub little : ℕ → List ℕ → ℕ
little b [] = 0
little b (d ∷ ds) = d + b * little b ds

-- The number with the given digits behind those of `acc`, most significant first.
abbrev pub big : ℕ → ℕ → List ℕ → ℕ
big b acc [] = acc
big b acc (d ∷ ds) = big b (acc * b + d) ds

pub big-append : (b acc : ℕ) (xs ys : List ℕ) → big b acc (xs ++ ys) ≡ big b (big b acc xs) ys
big-append b acc [] ys = refl
big-append b acc (x ∷ xs) ys = big-append b (acc * b + x) xs ys

pub little-append :
    (b : ℕ) (xs ys : List ℕ) → little b (xs ++ ys) ≡ little b xs + b ^ length xs * little b ys
little-append b [] ys = rw pow-zero (omega arith)
little-append b (x ∷ xs) ys = rw (little-append b xs ys, pow-suc) (grind arith)

pub little-lt : (b : ℕ) (xs : List ℕ) → All (λ d. d < b) xs → little b xs < b ^ length xs
little-lt b [] h = rw pow-zero (omega arith)
little-lt b (x ∷ xs) h = let ih = little-lt b xs h.1 in rw pow-suc (grind arith)

-- Reading a list of digits from its other end.
pub big-reverse : (b : ℕ) (xs : List ℕ) → big b 0 (reverse xs) ≡ little b xs
big-reverse b [] = refl
big-reverse b (x ∷ xs) =
    ap (big b 0) (reverse-append (x ∷ []) xs)
    ∙ big-append b 0 (reverse xs) (x ∷ [])
    ∙ rw (big-reverse b xs) (grind arith)

pub little-reverse : (b : ℕ) (xs : List ℕ) → little b (reverse xs) ≡ big b 0 xs
little-reverse b xs = sym (big-reverse b (reverse xs)) ∙ ap (big b 0) (reverse-reverse xs)

pub little-zeros : (b n : ℕ) → little b (replicate n 0) ≡ 0
little-zeros b zero = refl
little-zeros b (suc n) = rw (little-zeros b n) (omega arith)
