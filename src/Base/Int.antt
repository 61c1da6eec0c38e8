-- ===== src/Base/Int.antt =====
-- Signed integers over the native numbers, for `i64`.
use Prim.Native.Nat.{ℕ, suc, ◌+◌, ◌-◌, ◌≤◌, ◌<◌, ◌%◌}
use mathlib.Core.Path.{◌≡◌}
use mathlib.Core.Bool.{Bool}
use native.Mathlib.Omega.{arith}
use chain_data_service.Base.Tests.{ltb, leb, if◌then◌else◌}

-- `negsuc n` is -(n + 1).
pub data ℤ : Type 0 where
  pos : ℕ → ℤ
  negsuc : ℕ → ℤ

abbrev pub pos_part : ℤ → ℕ
pos_part (pos n) = n
pos_part (negsuc n) = 0

abbrev pub neg_part : ℤ → ℕ
neg_part (pos n) = 0
neg_part (negsuc n) = suc n

-- a - b, as an integer.
abbrev pub sub_ℕ : ℕ → ℕ → ℤ
sub_ℕ a b = if leb b a then pos (a - b) else negsuc (b - a - 1)

infixl 65 ◌-ℤ◌
infix 50 ◌≤ℤ◌ ◌<ℤ◌
unfoldable pub ◌-ℤ◌ : ℤ → ℤ → ℤ
a -ℤ b = sub_ℕ (pos_part a + neg_part b) (neg_part a + pos_part b)

abbrev pub ◌≤ℤ◌ : ℤ → ℤ → Type 0
a ≤ℤ b = pos_part a + neg_part b ≤ pos_part b + neg_part a

abbrev pub ◌<ℤ◌ : ℤ → ℤ → Type 0
a <ℤ b = pos_part a + neg_part b < pos_part b + neg_part a

abbrev pub ltb_ℤ : ℤ → ℤ → Bool
ltb_ℤ a b = ltb (pos_part a + neg_part b) (pos_part b + neg_part a)

abbrev pub leb_ℤ : ℤ → ℤ → Bool
leb_ℤ a b = leb (pos_part a + neg_part b) (pos_part b + neg_part a)

-- `as i64` of a 64-bit pattern: two's complement.
unfoldable pub to_i64 : ℕ → ℤ
to_i64 n = if ltb n 9223372036854775808 then pos n else negsuc (18446744073709551615 - n)

-- The 64-bit pattern of an integer.
unfoldable pub pattern_of : ℤ → ℕ
pattern_of (pos n) = n % 18446744073709551616
pattern_of (negsuc n) = 18446744073709551615 - n % 18446744073709551616

-- `i64` arithmetic with wrap-around.
unfoldable pub wrap_i64 : ℤ → ℤ
unfolding to_i64 pattern_of
wrap_i64 z = to_i64 (pattern_of z)

pub wrap_i64-eq :
    (z : ℤ) → pos_part z < 9223372036854775808 → neg_part z ≤ 9223372036854775808 → wrap_i64 z ≡ z
unfolding wrap_i64
wrap_i64-eq (pos n) h k = ground arith
wrap_i64-eq (negsuc n) h k = ground arith
