-- ===== src/Base/Tables.antt =====
-- Facts about small numbers by evaluation at each of them.
use Prim.Native.Nat.{ℕ, zero, suc, ◌<◌}
use mathlib.Core.Path.{◌≡◌}
use mathlib.Core.Bool.{Bool, true, ◌&&◌}
use native.Mathlib.Omega.{arith}

-- Whether a test holds of every number below a bound.
unfoldable pub all_below : ℕ → (ℕ → Bool) → Bool
all_below (suc last) test = all_below last test && test last
all_below zero test = true

pub all_below→true :
    (bound : ℕ) (test : ℕ → Bool) (i : ℕ) → all_below bound test ≡ true → i < bound → test i ≡ true
unfolding all_below
all_below→true (suc last) test i every below =
    let earlier = all_below→true last test i in ground (arith, earlier)
all_below→true zero test i every below = absurd (omega arith)
