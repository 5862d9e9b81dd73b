-- ===== src/Prelude/Bits.antt =====
-- `bit_or` of two words whose bits do not overlap is their sum.
use Prim.Native.Nat.{
  ℕ, zero, suc, ◌+◌, ◌*◌, ◌/◌, ◌%◌, ◌^◌, ◌≤◌, ◌<◌, max, bit_or, digits, bit_or-bitwise,
}
use mathlib.Core.Path.{◌≡◌, refl}
use native.Mathlib.Nat.{pow-suc}
use native.Mathlib.Omega.{arith}

abbrev or_digits : ℕ → ℕ → ℕ → ℕ
or_digits n a b = digits (λ b. b) max n a b

or_digits_fuel : (n m a b : ℕ) → a ≤ n → a ≤ m → or_digits n a b ≡ or_digits m a b
or_digits_fuel zero zero a b p q = refl
or_digits_fuel zero (suc m) zero b p q = refl
or_digits_fuel zero (suc m) (suc a) b p q = absurd (omega arith)
or_digits_fuel (suc n) zero zero b p q = refl
or_digits_fuel (suc n) zero (suc a) b p q = absurd (omega arith)
or_digits_fuel (suc n) (suc m) zero b p q = refl
or_digits_fuel (suc n) (suc m) (suc a) b p q =
    omega (arith, or_digits_fuel n m (suc a / 2) (b / 2) (omega arith) (omega arith))

zero-bit_or : (b : ℕ) → bit_or 0 b ≡ b
zero-bit_or b = bit_or-bitwise 0 b

-- The law for the lowest binary digit.
pub bit_or_step : (a b : ℕ) → bit_or a b ≡ bit_or (a / 2) (b / 2) * 2 + max (a % 2) (b % 2)
bit_or_step zero b = omega (arith, zero-bit_or b, zero-bit_or (b / 2))
bit_or_step (suc a) b = omega (
  arith,
  bit_or-bitwise (suc a) b,
  bit_or-bitwise (suc a / 2) (b / 2),
  or_digits_fuel a (suc a / 2) (suc a / 2) (b / 2) (omega arith) (omega arith),
)

bit_or-zero_fuel : (n a : ℕ) → a ≤ n → bit_or a 0 ≡ a
bit_or-zero_fuel n zero h = refl
bit_or-zero_fuel zero (suc a) h = absurd (omega arith)
bit_or-zero_fuel (suc n) (suc a) h =
    omega (arith, bit_or_step (suc a) 0, bit_or-zero_fuel n (suc a / 2) (omega arith))

pub bit_or-zero : (a : ℕ) → bit_or a 0 ≡ a
bit_or-zero a = bit_or-zero_fuel a a (omega arith)

shift_suc : (a k : ℕ) → a * 2 ^ suc k ≡ (a * 2 ^ k) * 2
shift_suc a k = rw pow-suc (omega arith)

-- One more digit, the lowest one of the left word being 0.
bit_or_double : (p b : ℕ) → bit_or p (b / 2) ≡ p + b / 2 → bit_or (p * 2) b ≡ p * 2 + b
bit_or_double p b h =
    let half : p * 2 / 2 ≡ p = omega arith in
    let split : bit_or (p * 2) b ≡ bit_or p (b / 2) * 2 + max (p * 2 % 2) (b % 2) =
      rw half at (bit_or_step (p * 2) b) in
    omega (arith, split)

pub bit_or_disjoint : (k a b : ℕ) → b < 2 ^ k → bit_or (a * 2 ^ k) b ≡ a * 2 ^ k + b
bit_or_disjoint zero a b h =
    let none_left : b ≡ 0 = omega arith in rw (none_left, bit_or-zero) (omega arith)
bit_or_disjoint (suc k) a b h =
    let smaller : b / 2 < 2 ^ k =
      (let p : 2 ^ suc k ≡ 2 ^ k * 2 = rw pow-suc (omega arith) in omega arith) in
    rw shift_suc (bit_or_double (a * 2 ^ k) b (bit_or_disjoint k a (b / 2) smaller))
