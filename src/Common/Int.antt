-- ===== src/Common/Int.antt =====
-- Go's `int` and `time.Duration` as integers: `negsuc n` is -(n + 1). Orders go through the two
-- parts of an integer, which are native numbers.
use Prim.Native.Nat.{ℕ, suc, ◌+◌, ◌-◌, ◌*◌, ◌%◌, ◌≤◌, ◌<◌}
use mathlib.Core.Path.{◌≡◌}
use mathlib.Core.Bool.{Bool, true, false}
use native.Mathlib.Omega.{arith}
use sccache_dist_action.Common.Tests.{ltb, leb, ◌==◌, if◌then◌else◌}

pub data ℤ : Type 0 where
  pos : ℕ → ℤ
  negsuc : ℕ → ℤ

abbrev pub pos_part : ℤ → ℕ
pos_part (pos n) = n
pos_part (negsuc n) = 0

abbrev pub neg_part : ℤ → ℕ
neg_part (pos n) = 0
neg_part (negsuc n) = suc n

-- a - b, as an integer.
abbrev pub sub_ℕ : ℕ → ℕ → ℤ
sub_ℕ a b = if leb b a then pos (a - b) else negsuc (b - a - 1)

infixl 65 ◌+ℤ◌
infixl 70 ◌*ℤ◌
infix 50 ◌≤ℤ◌ ◌<ℤ◌
unfoldable pub ◌+ℤ◌ : ℤ → ℤ → ℤ
a +ℤ b = sub_ℕ (pos_part a + pos_part b) (neg_part a + neg_part b)

unfoldable pub ◌*ℤ◌ : ℤ → ℤ → ℤ
a *ℤ b =
    sub_ℕ (pos_part a * pos_part b + neg_part a * neg_part b)
      (pos_part a * neg_part b + neg_part a * pos_part b)

abbrev pub ◌≤ℤ◌ : ℤ → ℤ → Type 0
a ≤ℤ b = pos_part a + neg_part b ≤ pos_part b + neg_part a

abbrev pub ◌<ℤ◌ : ℤ → ℤ → Type 0
a <ℤ b = pos_part a + neg_part b < pos_part b + neg_part a

abbrev pub ltb_ℤ : ℤ → ℤ → Bool
ltb_ℤ a b = ltb (pos_part a + neg_part b) (pos_part b + neg_part a)

abbrev pub leb_ℤ : ℤ → ℤ → Bool
leb_ℤ a b = leb (pos_part a + neg_part b) (pos_part b + neg_part a)

abbrev pub is_zero : ℤ → Bool
is_zero (pos n) = n == 0
is_zero (negsuc n) = false

-- The 64-bit two's complement value of an integer, as Go's arithmetic on `int` wraps around.
abbrev pub int64_of_bits : ℕ → ℤ
int64_of_bits b = if ltb b 9223372036854775808 then pos b else sub_ℕ b 18446744073709551616

abbrev pub wrap64 : ℤ → ℤ
wrap64 (pos n) = int64_of_bits (n % 18446744073709551616)
wrap64 (negsuc n) = int64_of_bits (18446744073709551615 - n % 18446744073709551616)

-- The numbers that Go's `int` holds on a 64-bit machine.
abbrev pub IsInt64 : ℤ → Type 0
IsInt64 (pos n) = n ≤ 9223372036854775807
IsInt64 (negsuc n) = n ≤ 9223372036854775807

-- A value in range is not changed by the wrap-around.
pub wrap64_id : (a : ℤ) → IsInt64 a → wrap64 a ≡ a
wrap64_id (pos n) h = ground arith
wrap64_id (negsuc n) h = ground arith

pub leb_ℤ→≤ℤ : (a b : ℤ) → leb_ℤ a b ≡ true → a ≤ℤ b
leb_ℤ→≤ℤ a b h = ground arith

pub leb_ℤ_false→<ℤ : (a b : ℤ) → leb_ℤ a b ≡ false → b <ℤ a
leb_ℤ_false→<ℤ a b h = ground arith
