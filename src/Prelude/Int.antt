-- ===== src/Prelude/Int.antt =====
-- The signed integers of Go, int32 and int64, where the program reads, compares and prints them.
use Prim.Native.Nat.{ℕ}
use mathlib.Core.Path.{◌≡◌}
use mathlib.Core.Bool.{Bool, false}
use native.Mathlib.Omega.{arith}
use env_forge.Prelude.Tests.{◌==◌}

-- `negsuc n` is -(n + 1)
pub data ℤ : Type 0 where
  pos : ℕ → ℤ
  negsuc : ℕ → ℤ

abbrev pub int_eq : ℤ → ℤ → Bool
int_eq (pos m) (pos n) = m == n
int_eq (negsuc m) (negsuc n) = m == n
int_eq _ _ = false

pub eq_of_int_eq : (a b : ℤ) → int_eq a b ≡ Bool.true → a ≡ b
eq_of_int_eq (pos m) (pos n) h = ground arith
eq_of_int_eq (pos m) (negsuc n) h = cc h
eq_of_int_eq (negsuc m) (pos n) h = cc h
eq_of_int_eq (negsuc m) (negsuc n) h = ground arith

pub int_eq_refl : (a : ℤ) → int_eq a a ≡ Bool.true
int_eq_refl (pos n) = ground arith
int_eq_refl (negsuc n) = ground arith
