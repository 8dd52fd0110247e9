-- ===== src/Base/Int.antt =====
-- Signed integers over the native numbers, and the division of C.
use Prim.Native.Nat.{ℕ, suc, ◌+◌, ◌-◌, ◌*◌, ◌/◌, ◌%◌, ◌^◌, ◌≤◌}
use mathlib.Core.Bool.{Bool, true, false}
use php_clickhouse.Base.Tests.{leb, ltb, if◌then◌else◌}

-- `negsuc n` is -(n + 1).
pub data ℤ : Type 0 where
  pos : ℕ → ℤ
  negsuc : ℕ → ℤ

abbrev pub pos_part : ℤ → ℕ
pos_part (pos n) = n
pos_part (negsuc n) = 0

abbrev pub neg_part : ℤ → ℕ
neg_part (pos n) = 0
neg_part (negsuc n) = suc n

-- a - b, as an integer.
abbrev pub sub_ℕ : ℕ → ℕ → ℤ
sub_ℕ a b = if leb b a then pos (a - b) else negsuc (b - a - 1)

infixl 65 ◌+ℤ◌
infixl 70 ◌*ℤ◌ ◌/ℤ◌ ◌%ℤ◌
infix 50 ◌≤ℤ◌
abbrev pub ◌+ℤ◌ : ℤ → ℤ → ℤ
a +ℤ b = sub_ℕ (pos_part a + pos_part b) (neg_part a + neg_part b)

-- A product with a number that is not negative.
abbrev pub ◌*ℤ◌ : ℤ → ℕ → ℤ
a *ℤ n = sub_ℕ (pos_part a * n) (neg_part a * n)

-- The quotient and the remainder of C by a positive number: the quotient is cut off towards zero, and
-- the remainder has the sign of the dividend.
abbrev pub ◌/ℤ◌ : ℤ → ℕ → ℤ
a /ℤ n = sub_ℕ (pos_part a / n) (neg_part a / n)

abbrev pub ◌%ℤ◌ : ℤ → ℕ → ℤ
a %ℤ n = sub_ℕ (pos_part a % n) (neg_part a % n)

abbrev pub ◌≤ℤ◌ : ℤ → ℤ → Type 0
a ≤ℤ b = pos_part a + neg_part b ≤ pos_part b + neg_part a

abbrev pub is_negative : ℤ → Bool
is_negative (pos n) = false
is_negative (negsuc n) = true

-- A cast to an unsigned or a signed type of `w` bits.
unfoldable pub to_unsigned : ℕ → ℤ → ℕ
to_unsigned w z = pos_part ((z %ℤ (2 ^ w) +ℤ pos (2 ^ w)) %ℤ (2 ^ w))

unfoldable pub to_signed : ℕ → ℤ → ℤ
unfolding to_unsigned
to_signed w z = let n = to_unsigned w z in if ltb n (2 ^ (w - 1)) then pos n else sub_ℕ n (2 ^ w)
