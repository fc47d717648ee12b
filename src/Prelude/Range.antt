-- ===== src/Prelude/Range.antt =====
-- Checking every number below a bound by evaluation.
use Prim.Native.Nat.{ℕ, zero, suc, ◌<◌}
use mathlib.Core.Path.{◌≡◌}
use mathlib.Core.Bool.{Bool, true, ◌&&◌}
use native.Mathlib.Omega.{arith}
use native.Mathlib.Decide.{ℕ_discrete}

unfoldable pub every_below : ℕ → (ℕ → Bool) → Bool
every_below zero test = true
every_below (suc n) test = every_below n test && test n

pub and-left : (a b : Bool) → (a && b) ≡ true → a ≡ true
and-left a b h = ground arith

pub and-right : (a b : Bool) → (a && b) ≡ true → b ≡ true
and-right a b h = ground arith

-- What holds at every number below a bound holds at one of them.
pub every_below-at :
    (n : ℕ) (test : ℕ → Bool) (k : ℕ) → every_below n test ≡ true → k < n → test k ≡ true
unfolding every_below
every_below-at zero test k h lt = absurd (omega arith)
every_below-at (suc n) test k h lt = elim (ℕ_discrete k n) [
  | yes e ↦ rw e (and-right (every_below n test) (test n) h)
  | no ne ↦ every_below-at n test k (and-left (every_below n test) (test n) h) (omega arith)
]
