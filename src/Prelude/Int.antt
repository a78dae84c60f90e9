-- ===== src/Prelude/Int.antt =====
-- Signed integers over the native numbers, and the machine integers i32 and i64: an `iN` is an
-- integer in range, and a cast to and from `uN` is the two's complement.
use Prim.Native.Nat.{ℕ, suc, ◌+◌, ◌-◌, ◌*◌, ◌%◌, ◌^◌, ◌≤◌, ◌<◌, compare, Ordering}
use mathlib.Core.Path.{◌≡◌}
use mathlib.Core.Bool.{Bool}
use native.Mathlib.Omega.{arith}
use isar_core.Prelude.Tests.{ltb, leb, ◌==◌, if◌then◌else◌}

-- `negsuc n` is -(n + 1).
pub data ℤ : Type 0 where
  pos : ℕ → ℤ
  negsuc : ℕ → ℤ

abbrev pub pos_part : ℤ → ℕ
pos_part (pos n) = n
pos_part (negsuc n) = 0

abbrev pub neg_part : ℤ → ℕ
neg_part (pos n) = 0
neg_part (negsuc n) = suc n

infix 50 ◌≤ℤ◌ ◌<ℤ◌
abbrev pub ◌≤ℤ◌ : ℤ → ℤ → Type 0
a ≤ℤ b = pos_part a + neg_part b ≤ pos_part b + neg_part a

abbrev pub ◌<ℤ◌ : ℤ → ℤ → Type 0
a <ℤ b = pos_part a + neg_part b < pos_part b + neg_part a

abbrev pub compare_ℤ : ℤ → ℤ → Ordering
compare_ℤ a b = compare (pos_part a + neg_part b) (pos_part b + neg_part a)

abbrev pub ltb_ℤ : ℤ → ℤ → Bool
ltb_ℤ a b = ltb (pos_part a + neg_part b) (pos_part b + neg_part a)

abbrev pub leb_ℤ : ℤ → ℤ → Bool
leb_ℤ a b = leb (pos_part a + neg_part b) (pos_part b + neg_part a)

abbrev pub eqb_ℤ : ℤ → ℤ → Bool
eqb_ℤ a b = (pos_part a + neg_part b) == (pos_part b + neg_part a)

pub eq_of_parts : (a b : ℤ) → pos_part a + neg_part b ≡ pos_part b + neg_part a → a ≡ b
eq_of_parts a b h = ground arith

-- The integers of a width whose sign bit has the value `half`.
abbrev pub IsSigned : ℕ → ℤ → Type 0
IsSigned half (pos n) = n < half
IsSigned half (negsuc n) = n < half

abbrev pub IsI32 : ℤ → Type 0
IsI32 = IsSigned (2 ^ 31)

abbrev pub IsI64 : ℤ → Type 0
IsI64 = IsSigned (2 ^ 63)

-- `transmute::<iN, uN>` and back.
abbrev pub to_unsigned : ℕ → ℤ → ℕ
to_unsigned half (pos n) = n
to_unsigned half (negsuc n) = 2 * half - 1 - n

abbrev pub to_signed : ℕ → ℕ → ℤ
to_signed half n = if ltb n half then pos n else negsuc (2 * half - 1 - n)

pub to_signed-to_unsigned :
    (half : ℕ) (z : ℤ) → IsSigned half z → to_signed half (to_unsigned half z) ≡ z
to_signed-to_unsigned half (pos n) h = ground arith
to_signed-to_unsigned half (negsuc n) h = ground arith

pub to_unsigned_bound : (half : ℕ) (z : ℤ) → IsSigned half z → to_unsigned half z < 2 * half
to_unsigned_bound half (pos n) h = omega arith
to_unsigned_bound half (negsuc n) h = omega arith

-- Wrapping sums and differences of a width, as the release build computes them.
unfoldable pub wrapping_add : ℕ → ℤ → ℤ → ℤ
wrapping_add half a b = to_signed half ((to_unsigned half a + to_unsigned half b) % (2 * half))

unfoldable pub wrapping_sub : ℕ → ℤ → ℤ → ℤ
wrapping_sub half a b =
    to_signed half ((to_unsigned half a + 2 * half - to_unsigned half b) % (2 * half))
