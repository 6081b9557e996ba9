-- ===== src/Common/Tables.antt =====
-- Finite checks by evaluation: a test of all numbers below a bound.
use Prim.Native.Nat.{ℕ, zero, suc, ◌<◌}
use mathlib.Core.Path.{◌≡◌}
use mathlib.Core.Bool.{Bool, true, ◌&&◌}
use native.Mathlib.Omega.{arith}

unfoldable pub all_below : ℕ → (ℕ → Bool) → Bool
all_below zero test = true
all_below (suc bound) test = all_below bound test && test bound

-- A table whose test succeeds everywhere answers for each of its entries.
pub all_below_sound :
    (bound : ℕ) (test : ℕ → Bool) (entry : ℕ)
    → all_below bound test ≡ true
    → entry < bound
    → test entry ≡ true
unfolding all_below
all_below_sound zero test entry every below = absurd (omega (arith, below))
all_below_sound (suc bound) test entry every below =
    let smaller = all_below_sound bound test entry in ground (arith, every, smaller)
