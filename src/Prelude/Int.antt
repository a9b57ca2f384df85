-- ===== src/Prelude/Int.antt =====
-- Signed 32-bit integers: an `int` is an integer here, and its two's complement pattern where the
-- code moves it as bytes or converts it to `unsigned int`.
use Prim.Native.Nat.{ℕ, zero, suc, ◌-◌, ◌^◌, ◌<◌}
use mathlib.Core.Path.{◌≡◌}
use mathlib.Core.Bool.{Bool, true, false}
use native.Mathlib.Omega.{arith}
use yfs_lab.Prelude.Tests.{ltb, ◌==◌, if◌then◌else◌}

-- `negsuc n` is -(n + 1).
pub data ℤ : Type 0 where
  pos : ℕ → ℤ
  negsuc : ℕ → ℤ

abbrev pub is_negative : ℤ → Bool
is_negative (pos n) = false
is_negative (negsuc n) = true

abbrev pub suc_int : ℤ → ℤ
suc_int (pos n) = pos (suc n)
suc_int (negsuc zero) = pos 0
suc_int (negsuc (suc n)) = negsuc n

abbrev pub pred_int : ℤ → ℤ
pred_int (pos zero) = negsuc 0
pred_int (pos (suc n)) = pos n
pred_int (negsuc n) = negsuc (suc n)

abbrev pub same_int : ℤ → ℤ → Bool
same_int (pos m) (pos n) = m == n
same_int (pos m) (negsuc n) = false
same_int (negsuc m) (pos n) = false
same_int (negsuc m) (negsuc n) = m == n

pub same_int_sound : (a b : ℤ) → same_int a b ≡ true → a ≡ b
same_int_sound (pos m) (pos n) h = ground arith
same_int_sound (pos m) (negsuc n) h = cc
same_int_sound (negsuc m) (pos n) h = cc
same_int_sound (negsuc m) (negsuc n) h = ground arith

pub same_int_refl : (a : ℤ) → same_int a a ≡ true
same_int_refl (pos m) = ground arith
same_int_refl (negsuc m) = ground arith

-- The range of a 32-bit `int`.
abbrev pub IsInt32 : ℤ → Type 0
IsInt32 (pos n) = n < 2 ^ 31
IsInt32 (negsuc n) = n < 2 ^ 31

-- The bit pattern of an `int`, and the `int` that a pattern stands for.
abbrev pub to_pattern : ℤ → ℕ
to_pattern (pos n) = n
to_pattern (negsuc n) = 2 ^ 32 - suc n

abbrev pub signed32 : ℕ → ℤ
signed32 w = if ltb w (2 ^ 31) then pos w else negsuc (2 ^ 32 - w - 1)

pub to_pattern-lt : (z : ℤ) → IsInt32 z → to_pattern z < 2 ^ 32
to_pattern-lt (pos n) h = omega arith
to_pattern-lt (negsuc n) h = omega arith

pub signed32-to_pattern : (z : ℤ) → IsInt32 z → signed32 (to_pattern z) ≡ z
signed32-to_pattern (pos n) h = ground arith
signed32-to_pattern (negsuc n) h = ground arith
