-- ===== src/Prelude/Bits.antt =====
-- `bit_or` and `bit_and` at variables: a number that leaves the low bits free is joined with one below them.
use Prim.Native.Nat.{min, max, bit_and, bit_or, digits, bit_and-bitwise, bit_or-bitwise}
use Prim.Native.Nat.{ℕ, zero, suc, ◌+◌, ◌*◌, ◌/◌, ◌%◌, ◌^◌, ◌≤◌, ◌<◌}
use mathlib.Core.Path.{◌≡◌, refl}
use native.Mathlib.Omega.{arith}
use native.Mathlib.Nat.{pow-suc}

abbrev or_digits : ℕ → ℕ → ℕ → ℕ
or_digits n a b = digits (λ b. b) max n a b

or_digits_fuel : (n m a b : ℕ) → a ≤ n → a ≤ m → or_digits n a b ≡ or_digits m a b
or_digits_fuel zero zero a b p q = refl
or_digits_fuel zero (suc m) zero b p q = refl
or_digits_fuel zero (suc m) (suc a) b p q = absurd (omega arith)
or_digits_fuel (suc n) zero zero b p q = refl
or_digits_fuel (suc n) zero (suc a) b p q = absurd (omega arith)
or_digits_fuel (suc n) (suc m) zero b p q = refl
or_digits_fuel (suc n) (suc m) (suc a) b p q =
    omega (arith, or_digits_fuel n m (suc a / 2) (b / 2) (omega arith) (omega arith))

zero-bit_or : (b : ℕ) → bit_or 0 b ≡ b
zero-bit_or b = bit_or-bitwise 0 b

bit_or_step : (a b : ℕ) → bit_or a b ≡ bit_or (a / 2) (b / 2) * 2 + max (a % 2) (b % 2)
bit_or_step zero b = omega (arith, zero-bit_or b, zero-bit_or (b / 2))
bit_or_step (suc a) b = omega (
  arith,
  bit_or-bitwise (suc a) b,
  bit_or-bitwise (suc a / 2) (b / 2),
  or_digits_fuel a (suc a / 2) (suc a / 2) (b / 2) (omega arith) (omega arith),
)

bit_or-zero_fuel : (n a : ℕ) → a ≤ n → bit_or a 0 ≡ a
bit_or-zero_fuel n zero h = zero-bit_or 0
bit_or-zero_fuel zero (suc a) h = absurd (omega arith)
bit_or-zero_fuel (suc n) (suc a) h =
    omega (arith, bit_or_step (suc a) 0, bit_or-zero_fuel n (suc a / 2) (omega arith))

bit_or-double : (x y b : ℕ) → y ≡ x * 2 → bit_or x (b / 2) ≡ x + b / 2 → bit_or y b ≡ y + b
bit_or-double x y b e h = rw (bit_or_step y b, half) (omega (arith, h))
  where
    half : y / 2 ≡ x
    half = omega arith

bit_or-eq_zero : (x b : ℕ) → b ≡ 0 → bit_or x b ≡ x + b
bit_or-eq_zero x b e = rw e (omega (arith, bit_or-zero_fuel x x))

pub bit_or-shifted : (s a b : ℕ) → b < 2 ^ s → bit_or (a * 2 ^ s) b ≡ a * 2 ^ s + b
bit_or-shifted zero a b h = bit_or-eq_zero (a * 2 ^ 0) b (omega arith)
bit_or-shifted (suc s) a b h =
    bit_or-double (a * 2 ^ s) (a * 2 ^ suc s) b (rw pow-suc (omega arith))
      (bit_or-shifted s a (b / 2) (below (rw pow-suc at h)))
  where
    below : b < 2 ^ s * 2 → b / 2 < 2 ^ s
    below lt = omega arith

and_digits-le : (n a b : ℕ) → digits (λ b. zero) min n a b ≤ b
and_digits-le zero a b = omega arith
and_digits-le (suc n) zero b = omega arith
and_digits-le (suc n) (suc a) b = omega (arith, and_digits-le n (suc a / 2) (b / 2))

-- A number under a mask is at most the mask.
pub bit_and-le : (a b : ℕ) → bit_and a b ≤ b
bit_and-le a b = omega (arith, bit_and-bitwise a b, and_digits-le a a b)
