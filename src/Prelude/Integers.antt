-- ===== src/Prelude/Integers.antt =====
-- Python's `int` where it may be negative, over the native numbers.
use Prim.Native.Nat.{ℕ}
use mathlib.Core.Path.{◌≡◌}
use mathlib.Core.Bool.{Bool, true, false}
use native.Mathlib.Omega.{arith}
use turboserve.Prelude.Tests.{ltb}

-- `pos n` is n, and `negsuc n` is -(n + 1).
pub data ℤ : Type 0 where
  pos negsuc : ℕ → ℤ

-- `a < b`
abbrev pub ltb_int : ℤ → ℤ → Bool
ltb_int (pos a) (pos b) = ltb a b
ltb_int (pos a) (negsuc b) = false
ltb_int (negsuc a) (pos b) = true
ltb_int (negsuc a) (negsuc b) = ltb b a

pub ltb_int_trans : (a b c : ℤ) → ltb_int a b ≡ false → ltb_int b c ≡ false → ltb_int a c ≡ false
ltb_int_trans (pos a) (pos b) (pos c) h k = ground arith
ltb_int_trans (pos a) (pos b) (negsuc c) h k = ground arith
ltb_int_trans (pos a) (negsuc b) (pos c) h k = ground arith
ltb_int_trans (pos a) (negsuc b) (negsuc c) h k = ground arith
ltb_int_trans (negsuc a) (pos b) (pos c) h k = ground arith
ltb_int_trans (negsuc a) (pos b) (negsuc c) h k = ground arith
ltb_int_trans (negsuc a) (negsuc b) (pos c) h k = ground arith
ltb_int_trans (negsuc a) (negsuc b) (negsuc c) h k = ground arith

pub ltb_int_asym : (a b : ℤ) → ltb_int a b ≡ true → ltb_int b a ≡ false
ltb_int_asym (pos a) (pos b) h = ground arith
ltb_int_asym (pos a) (negsuc b) h = ground arith
ltb_int_asym (negsuc a) (pos b) h = ground arith
ltb_int_asym (negsuc a) (negsuc b) h = ground arith

pub ltb_int_irrefl : (a : ℤ) → ltb_int a a ≡ false
ltb_int_irrefl (pos a) = ground arith
ltb_int_irrefl (negsuc a) = ground arith
