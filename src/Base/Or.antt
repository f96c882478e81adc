-- ===== src/Base/Or.antt =====
-- `bit_or` at variables: the law for the lowest digit, and an address with flags in its free bits.
use Prim.Native.Nat.{
  ℕ, zero, suc, ◌+◌, ◌*◌, ◌/◌, ◌%◌, ◌≤◌, ◌<◌, max, bit_or, digits, bit_or-bitwise,
}
use mathlib.Core.Path.{◌≡◌, refl, ap, subst, ◌∙◌}
use native.Mathlib.Omega.{arith}

abbrev or_digits : ℕ → ℕ → ℕ → ℕ
or_digits n a b = digits (λ b. b) max n a b

or_digits_fuel : (n m a b : ℕ) → a ≤ n → a ≤ m → or_digits n a b ≡ or_digits m a b
or_digits_fuel zero zero a b p q = refl
or_digits_fuel zero (suc m) zero b p q = refl
or_digits_fuel zero (suc m) (suc a) b p q = absurd (omega arith)
or_digits_fuel (suc n) zero zero b p q = refl
or_digits_fuel (suc n) zero (suc a) b p q = absurd (omega arith)
or_digits_fuel (suc n) (suc m) zero b p q = refl
or_digits_fuel (suc n) (suc m) (suc a) b p q =
    omega (arith, or_digits_fuel n m (suc a / 2) (b / 2) (omega arith) (omega arith))

zero-bit_or : (b : ℕ) → bit_or 0 b ≡ b
zero-bit_or b = bit_or-bitwise 0 b

bit_or_step : (a b : ℕ) → bit_or a b ≡ bit_or (a / 2) (b / 2) * 2 + max (a % 2) (b % 2)
bit_or_step zero b = omega (arith, zero-bit_or b, zero-bit_or (b / 2))
bit_or_step (suc a) b = omega (
  arith,
  bit_or-bitwise (suc a) b,
  bit_or-bitwise (suc a / 2) (b / 2),
  or_digits_fuel a (suc a / 2) (suc a / 2) (b / 2) (omega arith) (omega arith),
)

bit_or-zero_fuel : (n a : ℕ) → a ≤ n → bit_or a 0 ≡ a
bit_or-zero_fuel n zero h = zero-bit_or 0
bit_or-zero_fuel zero (suc a) h = absurd (omega arith)
bit_or-zero_fuel (suc n) (suc a) h =
    omega (arith, bit_or_step (suc a) 0, bit_or-zero_fuel n (suc a / 2) (omega arith))

bit_or-zero : (a : ℕ) → bit_or a 0 ≡ a
bit_or-zero a = bit_or-zero_fuel a a (omega arith)

pow2 : ℕ → ℕ
pow2 zero = 1
pow2 (suc k) = pow2 k + pow2 k

bit_or_low : (k q f : ℕ) → f < pow2 k → bit_or (pow2 k * q) f ≡ pow2 k * q + f
unfolding pow2
bit_or_low zero q f h =
    let none_set : f ≡ 0 = omega arith in rw none_set (bit_or-zero (1 * q) ∙ omega arith)
bit_or_low (suc k) q f h =
    let half : (pow2 k + pow2 k) * q / 2 ≡ pow2 k * q = omega arith in
    omega (
      arith,
      bit_or_step ((pow2 k + pow2 k) * q) f,
      ap (λ x. bit_or x (f / 2)) half,
      bit_or_low k q (f / 2) (omega arith),
    )

-- A word whose three lowest bits are clear, with flags in them.
pub bit_or_flags : (a f : ℕ) → a % 8 ≡ 0 → f < 8 → bit_or a f ≡ a + f
unfolding pow2
bit_or_flags a f h k =
    let whole : 8 * (a / 8) ≡ a = omega arith in
    subst (λ x. bit_or x f ≡ x + f) whole (bit_or_low 3 (a / 8) f k)

-- The same with flags in the eight lowest bits.
pub bit_or_byte : (a f : ℕ) → a % 256 ≡ 0 → f < 256 → bit_or a f ≡ a + f
unfolding pow2
bit_or_byte a f h k =
    let whole : 256 * (a / 256) ≡ a = omega arith in
    subst (λ x. bit_or x f ≡ x + f) whole (bit_or_low 8 (a / 256) f k)
