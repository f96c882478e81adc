-- ===== src/Base/Bits.antt =====
-- Facts about bytes, by evaluation over a small range.
use Prim.Native.Nat.{ℕ, zero, suc, ◌<◌}
use mathlib.Core.Path.{◌≡◌}
use mathlib.Core.Bool.{Bool, true, ◌&&◌}
use native.Mathlib.Omega.{arith}

-- A test that every number below `bound` passes.
unfoldable pub tested_below : (bound : ℕ) → (test : ℕ → Bool) → Bool
tested_below zero test = true
tested_below (suc top) test = tested_below top test && test top

pub tested_value :
    (bound : ℕ) (test : ℕ → Bool) (value : ℕ)
    → tested_below bound test ≡ true
    → value < bound
    → test value ≡ true
unfolding tested_below
tested_value zero test value passed low = absurd (omega arith)
tested_value (suc top) test value passed low = ground (arith, tested_value top test value)
