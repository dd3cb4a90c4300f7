-- ===== src/Prelude/Int.antt =====
-- The signed integers of the source, with the equality test of `int`.
use Prim.Native.Nat.{ℕ}
use mathlib.Core.Path.{◌≡◌}
use mathlib.Core.Logic.{◌↔◌}
use mathlib.Core.Bool.{Bool, true, false}
use native.Mathlib.Omega.{arith}
use jhcommon.Prelude.Tests.{◌==◌, ltb}

-- `negsuc n` is -(n + 1).
pub data ℤ : Type 0 where
  pos : ℕ → ℤ
  negsuc : ℕ → ℤ

abbrev pub int_eq : ℤ → ℤ → Bool
int_eq (pos a) (pos b) = a == b
int_eq (negsuc a) (negsuc b) = a == b
int_eq _ _ = false

abbrev pub int_lt : ℤ → ℤ → Bool
int_lt (pos a) (pos b) = ltb a b
int_lt (pos a) (negsuc b) = false
int_lt (negsuc a) (pos b) = true
int_lt (negsuc a) (negsuc b) = ltb b a

pub int_lt-below : (a b c : ℤ) → int_lt b c ≡ true → int_lt b a ≡ false → int_lt a c ≡ true
int_lt-below (pos a) (pos b) (pos c) h k = ground arith
int_lt-below (pos a) (pos b) (negsuc c) h k = ground arith
int_lt-below (pos a) (negsuc b) (pos c) h k = ground arith
int_lt-below (pos a) (negsuc b) (negsuc c) h k = ground arith
int_lt-below (negsuc a) (pos b) (pos c) h k = ground arith
int_lt-below (negsuc a) (pos b) (negsuc c) h k = ground arith
int_lt-below (negsuc a) (negsuc b) (pos c) h k = ground arith
int_lt-below (negsuc a) (negsuc b) (negsuc c) h k = ground arith

pub int_lt-asym : (a b : ℤ) → int_lt a b ≡ true → int_lt b a ≡ false
int_lt-asym (pos a) (pos b) h = ground arith
int_lt-asym (pos a) (negsuc b) h = ground arith
int_lt-asym (negsuc a) (pos b) h = ground arith
int_lt-asym (negsuc a) (negsuc b) h = ground arith

pub int_eq_iff : (a b : ℤ) → (int_eq a b ≡ true) ↔ (a ≡ b)
int_eq_iff (pos a) (pos b) = ground arith
int_eq_iff (negsuc a) (negsuc b) = ground arith
int_eq_iff (pos a) (negsuc b) = ground arith
int_eq_iff (negsuc a) (pos b) = ground arith
