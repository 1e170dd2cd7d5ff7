-- ===== src/Prelude/Int.antt =====
-- Signed integers over the native numbers, as far as the code uses them: sums and comparisons, and
-- for Python's hash arithmetic products, `^`, `& (2 ** 64 - 1)` and `%` by a natural number.
-- Negative numbers are in two's complement.
use Prim.Native.Nat.{ℕ, suc, ◌+◌, ◌-◌, ◌*◌, ◌%◌, ◌^◌, ◌≤◌, ◌<◌, bit_xor}
use mathlib.Core.Bool.{Bool}
use native.Mathlib.Nat.{mod-lt}
use native.Mathlib.Omega.{arith}
use pocket_titan.Prelude.Tests.{ltb, leb, if◌then◌else◌}

-- `negsuc n` is -(n + 1).
pub data ℤ : Type 0 where
  pos : ℕ → ℤ
  negsuc : ℕ → ℤ

-- a - b, as an integer.
abbrev pub sub_ℕ : ℕ → ℕ → ℤ
sub_ℕ a b = if leb b a then pos (a - b) else negsuc (b - a - 1)

-- The order of the integers, over their parts above and below zero.
abbrev pub pos_part : ℤ → ℕ
pos_part (pos n) = n
pos_part (negsuc _) = 0

abbrev pub neg_part : ℤ → ℕ
neg_part (pos _) = 0
neg_part (negsuc n) = suc n

infixl 65 ◌+ℤ◌
infix 50 ◌≤ℤ◌
abbrev pub ◌+ℤ◌ : ℤ → ℤ → ℤ
pos a +ℤ pos b = pos (a + b)
pos a +ℤ negsuc b = sub_ℕ a (suc b)
negsuc a +ℤ pos b = sub_ℕ b (suc a)
negsuc a +ℤ negsuc b = negsuc (suc (a + b))

abbrev pub ◌≤ℤ◌ : ℤ → ℤ → Type 0
a ≤ℤ b = pos_part a + neg_part b ≤ pos_part b + neg_part a

abbrev pub ltb_ℤ : ℤ → ℤ → Bool
ltb_ℤ a b = ltb (pos_part a + neg_part b) (pos_part b + neg_part a)

abbrev pub leb_ℤ : ℤ → ℤ → Bool
leb_ℤ a b = leb (pos_part a + neg_part b) (pos_part b + neg_part a)

abbrev pub max_ℤ : ℤ → ℤ → ℤ
max_ℤ a b = if ltb_ℤ a b then b else a

infixl 70 ◌*ℤ◌ ◌%ℤ◌
unfoldable pub ◌*ℤ◌ : ℤ → ℤ → ℤ
pos a *ℤ pos b = pos (a * b)
pos a *ℤ negsuc b = sub_ℕ 0 (a * suc b)
negsuc a *ℤ pos b = sub_ℕ 0 (suc a * b)
negsuc a *ℤ negsuc b = pos (suc a * suc b)

-- The complement of n is -(n + 1), so xor complements once for each negative side.
unfoldable pub xor_ℤ : ℤ → ℤ → ℤ
xor_ℤ (pos a) (pos b) = pos (bit_xor a b)
xor_ℤ (pos a) (negsuc b) = negsuc (bit_xor a b)
xor_ℤ (negsuc a) (pos b) = negsuc (bit_xor a b)
xor_ℤ (negsuc a) (negsuc b) = pos (bit_xor a b)

-- Python's remainder by a positive number; it has the divisor's sign.
unfoldable pub ◌%ℤ◌ : ℤ → ℕ → ℕ
pos a %ℤ m = a % m
negsuc a %ℤ m = m - 1 - a % m

pub %ℤ-lt : (a : ℤ) (m : ℕ) → 0 < m → a %ℤ m < m
unfolding ◌%ℤ◌
%ℤ-lt (pos a) m h = mod-lt a h
%ℤ-lt (negsuc a) m h = omega arith

-- `signed_int64`: the low 64 bits, read as a signed number.
unfoldable pub signed_int64 : ℤ → ℤ
unfolding ◌%ℤ◌
signed_int64 value =
    let low = value %ℤ (2 ^ 64) in if leb (2 ^ 63) low then negsuc (2 ^ 64 - 1 - low) else pos low
