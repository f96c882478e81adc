-- ===== src/Base/Word.antt =====
-- 32-bit words: an `int32_t` or `uint32_t` is its bit pattern, a number below 2 ^ 32.
use Prim.Native.Nat.{ℕ, ◌+◌, ◌-◌, ◌*◌, ◌/◌, ◌%◌, ◌^◌}
use mathlib.Core.Bool.{Bool}
use cheet_os.Base.Tests.{ltb}

-- the pattern of -1
abbrev pub minus_one : ℕ
minus_one = 2 ^ 32 - 1

abbrev pub add32 : ℕ → ℕ → ℕ
add32 a b = (a + b) % 2 ^ 32

abbrev pub sub32 : ℕ → ℕ → ℕ
sub32 a b = (a + 2 ^ 32 - b) % 2 ^ 32

-- `a < b` between two `int32_t`
abbrev pub lt_signed : ℕ → ℕ → Bool
lt_signed a b = ltb ((a + 2 ^ 31) % 2 ^ 32) ((b + 2 ^ 31) % 2 ^ 32)

-- `x & ~(2 ^ k - 1)`
abbrev pub align_down : ℕ → ℕ → ℕ
align_down x k = x / 2 ^ k * 2 ^ k
