-- ===== src/Base/Int.antt =====
-- Go's signed `int`, for arguments that the source tests for their sign.
use Prim.Native.Nat.{ℕ}
use mathlib.Core.Option.{Option, none, some}
use Prim.Native.Nat.{zero, suc}
use mathlib.Core.Bool.{Bool, true, false, ◌&&◌}
use mathlib.Core.Path.{◌≡◌, ap}
use native.Mathlib.Omega.{arith}
use secure_crt.Base.Tests.{◌==◌, ltb, leb}

-- `negsuc n` is -(n + 1).
pub data ℤ : Type 0 where
  pos : ℕ → ℤ
  negsuc : ℕ → ℤ

-- The number, where it is positive.
abbrev pub positive? : ℤ → Option ℕ
positive? (pos zero) = none
positive? (pos (suc n)) = some (suc n)
positive? (negsuc n) = none

abbrev pub int_eq : ℤ → ℤ → Bool
int_eq (pos m) (pos n) = m == n
int_eq (negsuc m) (negsuc n) = m == n
int_eq _ _ = false

-- Whether the number is positive and not more than a bound.
abbrev pub is_between_one_and : ℕ → ℤ → Bool
is_between_one_and most (pos n) = ltb 0 n && leb n most
is_between_one_and most (negsuc n) = false

pub int_eq_refl : (n : ℤ) → int_eq n n ≡ true
int_eq_refl (pos n) = ground arith
int_eq_refl (negsuc n) = ground arith

pub int_eq_sound : (m n : ℤ) → int_eq m n ≡ true → m ≡ n
int_eq_sound (pos m) (pos n) h = ap pos (ground (arith, h))
int_eq_sound (pos m) (negsuc n) h = cc
int_eq_sound (negsuc m) (pos n) h = cc
int_eq_sound (negsuc m) (negsuc n) h = ap negsuc (ground (arith, h))
