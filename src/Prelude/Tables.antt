-- ===== src/Prelude/Tables.antt =====
-- Checking a property of every number below a bound by evaluation.
use mathlib.Core.Bool.{Bool, true, ◌&&◌}
use mathlib.Core.Path.{◌≡◌}
use native.Mathlib.Omega.{arith}
use Prim.Native.Nat.{ℕ, zero, suc, ◌<◌}

-- from the largest number down, the rest first
unfoldable pub every_below : ℕ → (ℕ → Bool) → Bool
every_below zero test = true
every_below (suc top) test = every_below top test && test top

pub every_below_sound :
    (bound : ℕ) (test : ℕ → Bool) (i : ℕ)
    → every_below bound test ≡ true
    → i < bound
    → test i ≡ true
unfolding every_below
every_below_sound zero test i every below = absurd (omega arith)
every_below_sound (suc top) test i every below = ground (arith, every_below_sound top test i)
