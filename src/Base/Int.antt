-- ===== src/Base/Int.antt =====
-- Signed integers of C: an integer is a number or the negative of one and more.
use Prim.Native.Nat.{ℕ, suc, ◌+◌, ◌-◌, ◌^◌}
use cc.Base.Tests.{ltb, leb, if◌then◌else◌}

-- `negsuc n` is -(n + 1).
pub data ℤ : Type 0 where
  pos : ℕ → ℤ
  negsuc : ℕ → ℤ

abbrev pub pos_part : ℤ → ℕ
pos_part (pos n) = n
pos_part (negsuc n) = 0

abbrev pub neg_part : ℤ → ℕ
neg_part (pos n) = 0
neg_part (negsuc n) = suc n

-- a - b, as an integer.
abbrev pub sub_ℕ : ℕ → ℕ → ℤ
sub_ℕ a b = if leb b a then pos (a - b) else negsuc (b - a - 1)

infixl 65 ◌-ℤ◌
abbrev pub ◌-ℤ◌ : ℤ → ℤ → ℤ
a -ℤ b = sub_ℕ (pos_part a + neg_part b) (neg_part a + pos_part b)

-- `(int64_t)n` of a word, and `(uint64_t)` of an integer of 64 bits.
abbrev pub to_int64 : ℕ → ℤ
to_int64 n = if ltb n (2 ^ 63) then pos n else negsuc (2 ^ 64 - 1 - n)

abbrev pub from_int64 : ℤ → ℕ
from_int64 (pos n) = n
from_int64 (negsuc n) = 2 ^ 64 - 1 - n

-- INT64_MAX, INT32_MAX.
abbrev pub int64_max : ℕ
int64_max = 0x7fff_ffff_ffff_ffff

abbrev pub int32_max : ℕ
int32_max = 0x7fff_ffff
