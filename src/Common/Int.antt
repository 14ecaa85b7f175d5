-- ===== src/Common/Int.antt =====
-- Signed machine integers: ℤ over the native numbers, with the wrap-around of `int64`.
use Prim.Native.Nat.{ℕ, suc, ◌+◌, ◌-◌, ◌/◌, ◌%◌, ◌≤◌}
use mathlib.Core.Path.{◌≡◌}
use mathlib.Core.Bool.{Bool}
use native.Mathlib.Omega.{arith}
use argo_watcher.Common.Tests.{leb, if◌then◌else◌}

-- `negsuc n` is -(n + 1).
pub data ℤ : Type 0 where
  pos : ℕ → ℤ
  negsuc : ℕ → ℤ

abbrev pub pos_part : ℤ → ℕ
pos_part (pos n) = n
pos_part (negsuc n) = 0

abbrev pub neg_part : ℤ → ℕ
neg_part (pos n) = 0
neg_part (negsuc n) = suc n

-- a - b, as an integer.
abbrev pub sub_ℕ : ℕ → ℕ → ℤ
sub_ℕ a b = if leb b a then pos (a - b) else negsuc (b - a - 1)

infixl 65 ◌+ℤ◌ ◌-ℤ◌
unfoldable pub ◌+ℤ◌ : ℤ → ℤ → ℤ
a +ℤ b = sub_ℕ (pos_part a + pos_part b) (neg_part a + neg_part b)

unfoldable pub ◌-ℤ◌ : ℤ → ℤ → ℤ
a -ℤ b = sub_ℕ (pos_part a + neg_part b) (neg_part a + pos_part b)

abbrev pub lebℤ : ℤ → ℤ → Bool
lebℤ a b = leb (pos_part a + neg_part b) (pos_part b + neg_part a)

abbrev pub max_int64 : ℕ
max_int64 = 9223372036854775807

abbrev pub two_pow_64 : ℕ
two_pow_64 = 18446744073709551616

-- The `int64` that the two's complement bits of the number `n` stand for.
abbrev signed : ℕ → ℤ
signed n = if leb n max_int64 then pos n else negsuc (two_pow_64 - 1 - n)

-- A result brought back into the range of `int64`.
unfoldable pub int64 : ℤ → ℤ
int64 (pos n) = signed (n % two_pow_64)
int64 (negsuc n) = signed (two_pow_64 - 1 - n % two_pow_64)

-- Go's division truncates toward zero; only positive divisors occur.
unfoldable pub quot : ℤ → ℕ → ℤ
quot (pos a) b = pos (a / b)
quot (negsuc a) b = sub_ℕ 0 (suc a / b)

pub int64_of_le : (n : ℕ) → n ≤ max_int64 → int64 (pos n) ≡ pos n
unfolding int64
int64_of_le n h = ground arith
