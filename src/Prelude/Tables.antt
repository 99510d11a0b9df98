-- ===== src/Prelude/Tables.antt =====
-- What holds of every number below a bound, checked by evaluation.
use Prim.Native.Nat.{ℕ, zero, suc, ◌<◌}
use mathlib.Core.Path.{◌≡◌}
use mathlib.Core.Bool.{Bool, true, ◌&&◌}
use native.Mathlib.Omega.{arith}

-- The test succeeds at 0, ..., bound - 1.
unfoldable pub holds_below : (ℕ → Bool) → ℕ → Bool
holds_below test zero = true
holds_below test (suc bound) = holds_below test bound && test bound

pub holds_below-at :
    (test : ℕ → Bool) (bound a : ℕ) → a < bound → holds_below test bound ≡ true → test a ≡ true
unfolding holds_below
holds_below-at test zero a below table = absurd (omega (arith, below))
holds_below-at test (suc bound) a below table = ground (arith, holds_below-at test bound a)
