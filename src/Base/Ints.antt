-- ===== src/Base/Ints.antt =====
-- Signed integers over the native numbers, for `int32` values, and the wrap-around of `int64` ones.
use Prim.Native.Nat.{ℕ, zero, suc, ◌+◌, ◌-◌, ◌/◌, ◌%◌, ◌^◌, ◌<◌}
use mathlib.Core.Path.{◌≡◌}
use mathlib.Core.Bool.{Bool, true, false}
use native.Mathlib.Omega.{arith}
use k8s_jumperless.Base.Tests.{leb, if◌then◌else◌}

-- `negsuc n` is -(n + 1).
pub data ℤ : Type 0 where
  pos : ℕ → ℤ
  negsuc : ℕ → ℤ

abbrev pub pos_part : ℤ → ℕ
pos_part (pos n) = n
pos_part (negsuc n) = 0

abbrev pub neg_part : ℤ → ℕ
neg_part (pos n) = 0
neg_part (negsuc n) = suc n

-- Go's `<=` on signed integers.
abbrev pub lez : ℤ → ℤ → Bool
lez a b = leb (pos_part a + neg_part b) (pos_part b + neg_part a)

infix 50 ◌<ℤ◌
abbrev pub ◌<ℤ◌ : ℤ → ℤ → Type 0
a <ℤ b = pos_part a + neg_part b < pos_part b + neg_part a

pub lt_of_lez : (a b : ℤ) → lez a b ≡ false → b <ℤ a
lt_of_lez a b h = ground arith

-- a - b, as an integer.
abbrev pub sub_ℕ : ℕ → ℕ → ℤ
sub_ℕ a b = if leb b a then pos (a - b) else negsuc (b - a - 1)

infixl 65 ◌+ℤ◌
unfoldable pub ◌+ℤ◌ : ℤ → ℤ → ℤ
a +ℤ b = sub_ℕ (pos_part a + pos_part b) (neg_part a + neg_part b)

-- A pattern of 64 bits, as a signed integer.
abbrev pub int64_of_bits : ℕ → ℤ
int64_of_bits n = if leb (2 ^ 63) n then negsuc (2 ^ 64 - 1 - n) else pos n

-- The `int64` with the same lowest 64 bits.
unfoldable pub wrap_int64 : ℤ → ℤ
wrap_int64 (pos n) = int64_of_bits (n % 2 ^ 64)
wrap_int64 (negsuc n) = int64_of_bits (2 ^ 64 - 1 - n % 2 ^ 64)

-- The nearest `int64`.
unfoldable pub saturate_int64 : ℤ → ℤ
saturate_int64 (pos n) = pos (if leb n (2 ^ 63 - 1) then n else 2 ^ 63 - 1)
saturate_int64 (negsuc n) = negsuc (if leb n (2 ^ 63 - 1) then n else 2 ^ 63 - 1)

-- Go's `/` by a positive number, which rounds towards 0.
unfoldable pub quotient : ℤ → ℕ → ℤ
quotient (pos n) d = pos (n / d)
quotient (negsuc n) d = sub_ℕ 0 (suc n / d)

-- Is the number greater than 0?
abbrev pub is_positive : ℤ → Bool
is_positive (pos zero) = false
is_positive (pos (suc n)) = true
is_positive (negsuc n) = false
