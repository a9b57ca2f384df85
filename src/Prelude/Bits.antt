-- ===== src/Prelude/Bits.antt =====
-- `|` of two numbers whose bits do not meet is their sum. The libraries have no law of `bit_or` at
-- variables but its definition.
use Prim.Native.Nat.{
  ℕ, zero, suc, ◌+◌, ◌*◌, ◌/◌, ◌%◌, ◌^◌, ◌≤◌, ◌<◌, max, bit_or, digits, bit_or-bitwise,
}
use mathlib.Core.Path.{◌≡◌, refl, subst}
use native.Mathlib.Omega.{arith}
use native.Mathlib.Nat.{pow-suc}

abbrev or_digits : ℕ → ℕ → ℕ → ℕ
or_digits n a b = digits (λ b. b) max n a b

or_digits_fuel : (n m a b : ℕ) → a ≤ n → a ≤ m → or_digits n a b ≡ or_digits m a b
or_digits_fuel zero zero a b p q = refl
or_digits_fuel zero (suc m) zero b p q = refl
or_digits_fuel zero (suc m) (suc a) b p q = absurd (omega arith)
or_digits_fuel (suc n) zero zero b p q = refl
or_digits_fuel (suc n) zero (suc a) b p q = absurd (omega arith)
or_digits_fuel (suc n) (suc m) zero b p q = refl
or_digits_fuel (suc n) (suc m) (suc a) b p q =
    omega (arith, or_digits_fuel n m (suc a / 2) (b / 2) (omega arith) (omega arith))

zero-bit_or : (b : ℕ) → bit_or 0 b ≡ b
zero-bit_or b = bit_or-bitwise 0 b

bit_or_step : (a b : ℕ) → bit_or a b ≡ bit_or (a / 2) (b / 2) * 2 + max (a % 2) (b % 2)
bit_or_step zero b = omega (arith, zero-bit_or b, zero-bit_or (b / 2))
bit_or_step (suc a) b = omega (
  arith,
  bit_or-bitwise (suc a) b,
  bit_or-bitwise (suc a / 2) (b / 2),
  or_digits_fuel a (suc a / 2) (suc a / 2) (b / 2) (omega arith) (omega arith),
)

bit_or-zero_fuel : (n a : ℕ) → a ≤ n → bit_or a 0 ≡ a
bit_or-zero_fuel n zero h = refl
bit_or-zero_fuel zero (suc a) h = absurd (omega arith)
bit_or-zero_fuel (suc n) (suc a) h =
    omega (arith, bit_or_step (suc a) 0, bit_or-zero_fuel n (suc a / 2) (omega arith))

bit_or-double : (t b : ℕ) → bit_or (t * 2) b ≡ bit_or t (b / 2) * 2 + b % 2
bit_or-double t b =
    let half : t * 2 / 2 ≡ t = omega arith in
    let step : bit_or (t * 2) b ≡ bit_or (t * 2 / 2) (b / 2) * 2 + max (t * 2 % 2) (b % 2) =
      bit_or_step (t * 2) b in
    omega (
      arith,
      subst (λ s. bit_or (t * 2) b ≡ bit_or s (b / 2) * 2 + max (t * 2 % 2) (b % 2)) half step,
    )

-- `a << k | b` for `b` of at most `k` bits.
pub bit_or-shifted : (k a b : ℕ) → b < 2 ^ k → bit_or (a * 2 ^ k) b ≡ a * 2 ^ k + b
bit_or-shifted zero a b h =
    let none_left : b ≡ 0 = omega arith in
    rw none_left (omega (arith, bit_or-zero_fuel (a * 1) (a * 1) (omega arith)))
bit_or-shifted (suc k) a b h =
    let below : b < 2 ^ k * 2 = rw (← pow-suc 2 k) h in
    let doubled : a * 2 ^ suc k ≡ a * 2 ^ k * 2 = rw (pow-suc 2 k) (omega arith) in
    rw doubled
      (omega (arith, bit_or-double (a * 2 ^ k) b, bit_or-shifted k a (b / 2) (omega arith)))

bit_or_comm_fuel : (n a b : ℕ) → a ≤ n → bit_or a b ≡ bit_or b a
bit_or_comm_fuel zero a b h =
    let none_left : a ≡ 0 = omega arith in
    rw none_left (omega (arith, zero-bit_or b, bit_or-zero_fuel b b (omega arith)))
bit_or_comm_fuel (suc n) zero b h = omega (arith, zero-bit_or b, bit_or-zero_fuel b b (omega arith))
bit_or_comm_fuel (suc n) (suc a) b h = omega (
  arith,
  bit_or_step (suc a) b,
  bit_or_step b (suc a),
  bit_or_comm_fuel n (suc a / 2) (b / 2) (omega arith),
)

pub bit_or_comm : (a b : ℕ) → bit_or a b ≡ bit_or b a
bit_or_comm a b = bit_or_comm_fuel a a b (omega arith)
