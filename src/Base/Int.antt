-- ===== src/Base/Int.antt =====
-- Signed integers over the native numbers, and the wrap-around of `int64`.
use Prim.Native.Nat.{ℕ, suc, ◌-◌, ◌*◌, ◌%◌, ◌^◌, ◌<◌}
use mathlib.Core.Path.{◌≡◌}
use mathlib.Core.Bool.{Bool, true, false}
use native.Mathlib.Omega.{arith}
use cars.Base.Tests.{ltb, if◌then◌else◌}

-- `negsuc n` is -(n + 1).
pub data ℤ : Type 0 where
  pos : ℕ → ℤ
  negsuc : ℕ → ℤ

-- `a < b` on integers.
unfoldable pub int_lt : ℤ → ℤ → Bool
int_lt (pos a) (pos b) = ltb a b
int_lt (pos a) (negsuc b) = false
int_lt (negsuc a) (pos b) = true
int_lt (negsuc a) (negsuc b) = ltb b a

pub int_lt_irrefl : (a : ℤ) → int_lt a a ≡ false
unfolding int_lt
int_lt_irrefl (pos a) = ground arith
int_lt_irrefl (negsuc a) = ground arith

-- If `a < b` and not `c < b`, then `a < c`.
pub int_lt_of_not_lt : (a b c : ℤ) → int_lt a b ≡ true → int_lt c b ≡ false → int_lt a c ≡ true
unfolding int_lt
int_lt_of_not_lt (pos a) (pos b) (pos c) h k = ground arith
int_lt_of_not_lt (pos a) (pos b) (negsuc c) h k = ground arith
int_lt_of_not_lt (pos a) (negsuc b) c h k = ground arith
int_lt_of_not_lt (negsuc a) (pos b) (pos c) h k = ground arith
int_lt_of_not_lt (negsuc a) (pos b) (negsuc c) h k = ground arith
int_lt_of_not_lt (negsuc a) (negsuc b) (pos c) h k = ground arith
int_lt_of_not_lt (negsuc a) (negsuc b) (negsuc c) h k = ground arith

-- The integer that a residue modulo 2 ^ 64 stands for.
abbrev pub of_residue : ℕ → ℤ
of_residue r = if ltb r (2 ^ 63) then pos r else negsuc (2 ^ 64 - 1 - r)

-- Conversion to `int64`, which wraps around.
unfoldable pub int64 : ℤ → ℤ
int64 (pos n) = of_residue (n % 2 ^ 64)
int64 (negsuc n) = of_residue (2 ^ 64 - 1 - n % 2 ^ 64)

pub int64-pos : (n : ℕ) → n < 2 ^ 63 → int64 (pos n) ≡ pos n
unfolding int64
int64-pos n h = ground arith

infixl 70 ◌*ℤ◌
-- The exact product.
unfoldable pub ◌*ℤ◌ : ℤ → ℤ → ℤ
(pos a) *ℤ (pos b) = pos (a * b)
(pos a) *ℤ (negsuc b) = if ltb 0 a then negsuc (a * suc b - 1) else pos 0
(negsuc a) *ℤ (pos b) = if ltb 0 b then negsuc (suc a * b - 1) else pos 0
(negsuc a) *ℤ (negsuc b) = pos (suc a * suc b)

pub int_lt_trans : (a b c : ℤ) → int_lt a b ≡ true → int_lt b c ≡ true → int_lt a c ≡ true
unfolding int_lt
int_lt_trans (pos a) (pos b) (pos c) h k = ground arith
int_lt_trans (pos a) (pos b) (negsuc c) h k = ground arith
int_lt_trans (pos a) (negsuc b) c h k = ground arith
int_lt_trans (negsuc a) (pos b) (pos c) h k = ground arith
int_lt_trans (negsuc a) (pos b) (negsuc c) h k = ground arith
int_lt_trans (negsuc a) (negsuc b) (pos c) h k = ground arith
int_lt_trans (negsuc a) (negsuc b) (negsuc c) h k = ground arith
