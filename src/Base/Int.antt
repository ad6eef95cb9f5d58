-- ===== src/Base/Int.antt =====
-- Signed integers over the native numbers.
use Prim.Native.Nat.{ℕ, suc, ◌+◌, ◌-◌, ◌%◌}
use mathlib.Core.Bool.{Bool}
use omnivault.Base.Tests.{ltb, leb, if◌then◌else◌}

-- `negsuc n` is -(n + 1).
pub data ℤ : Type 0 where
  pos : ℕ → ℤ
  negsuc : ℕ → ℤ

abbrev pub pos_part : ℤ → ℕ
pos_part (pos n) = n
pos_part (negsuc n) = 0

abbrev pub neg_part : ℤ → ℕ
neg_part (pos n) = 0
neg_part (negsuc n) = suc n

-- a - b, as an integer.
abbrev pub sub_ℕ : ℕ → ℕ → ℤ
sub_ℕ a b = if leb b a then pos (a - b) else negsuc (b - a - 1)

abbrev pub leb_ℤ : ℤ → ℤ → Bool
leb_ℤ a b = leb (pos_part a + neg_part b) (pos_part b + neg_part a)

abbrev pub two_63 : ℕ
two_63 = 9223372036854775808

abbrev pub two_64 : ℕ
two_64 = 18446744073709551616

-- The signed value of a residue modulo 2^64.
abbrev pub signed : ℕ → ℤ
signed r = if ltb r two_63 then pos r else negsuc (two_64 - 1 - r)

-- What an int64 keeps of an integer.
unfoldable pub wrap_int64 : ℤ → ℤ
wrap_int64 (pos n) = signed (n % two_64)
wrap_int64 (negsuc n) = signed (two_64 - 1 - n % two_64)

-- -a, as an int64: the least value is its own negation.
abbrev pub negate_int64 : ℤ → ℤ
negate_int64 a = wrap_int64 (sub_ℕ (neg_part a) (pos_part a))
