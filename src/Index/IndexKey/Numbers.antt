-- ===== src/Index/IndexKey/Numbers.antt =====
-- Keys that differ in a number are ordered as the numbers are, and what is added later decides a tie.
use isar_core.Prelude.{ℕ, ◌+◌, ◌-◌, ◌*◌, ◌^◌, ◌<◌, ◌≡◌, refl, arith, [], ◌∷◌, ◌++◌, compare}
use isar_core.Prelude.{bit_xor}
use isar_core.Prelude.Int.{ℤ, pos, negsuc, IsSigned, IsI32, IsI64, to_unsigned, compare_ℤ}
use isar_core.Prelude.Bits.{bit_xor_set, bit_xor_clear}
use isar_core.Prelude.Bytes.{
  Bytes, to_be_bytes, compare_bytes, compare_bytes-append_same, compare_bytes-to_be_bytes,
  then_compare,
}
use isar_core.Index.IndexKey.{IndexKey, add_byte, add_int, add_long}
use mathlib.Core.List.{append_assoc}

-- The comparison of what two keys are after `xs` and `ys` were added behind.
pub compare-extended :
    (key : Bytes) (w a b : ℕ) (xs ys : Bytes)
    → a < 256 ^ w
    → b < 256 ^ w
    → compare_bytes ((key ++ to_be_bytes w a) ++ xs) ((key ++ to_be_bytes w b) ++ ys)
      ≡ then_compare (compare a b) (compare_bytes xs ys)
compare-extended key w a b xs ys ha hb =
    rw
      (
        append_assoc key (to_be_bytes w a) xs,
        append_assoc key (to_be_bytes w b) ys,
        compare_bytes-append_same key (to_be_bytes w a ++ xs) (to_be_bytes w b ++ ys),
      )
      (compare_bytes-to_be_bytes w a b xs ys ha hb)

-- The number whose order is that of the integers, and the flip of the sign bit that computes it.
abbrev distance : ℕ → ℤ → ℕ
distance k (pos n) = n + 2 ^ k
distance k (negsuc n) = 2 ^ k - 1 - n

abbrev flipped : ℕ → ℤ → ℕ
flipped k z = bit_xor (to_unsigned (2 ^ k) z) (2 ^ k)

flipped-distance : (k : ℕ) (z : ℤ) → IsSigned (2 ^ k) z → flipped k z ≡ distance k z
flipped-distance k (pos n) h = bit_xor_set k n h
flipped-distance k (negsuc n) h = ground (arith, bit_xor_clear k (2 ^ k - 1 - n))

flipped_bound : (k : ℕ) (z : ℤ) → IsSigned (2 ^ k) z → flipped k z < 2 * 2 ^ k
flipped_bound k (pos n) h = omega (arith, flipped-distance k (pos n) h)
flipped_bound k (negsuc n) h = omega (arith, flipped-distance k (negsuc n) h)

compare-flipped :
    (k : ℕ) (a b : ℤ)
    → IsSigned (2 ^ k) a
    → IsSigned (2 ^ k) b
    → compare (flipped k a) (flipped k b) ≡ compare_ℤ a b
compare-flipped k a b ha hb =
    rw (flipped-distance k a ha, flipped-distance k b hb) (order a b ha hb)
  where
    order :
        (a b : ℤ)
        → IsSigned (2 ^ k) a
        → IsSigned (2 ^ k) b
        → compare (distance k a) (distance k b) ≡ compare_ℤ a b
    order (pos m) (pos n) ha hb = ground arith
    order (pos m) (negsuc n) ha hb = ground arith
    order (negsuc m) (pos n) ha hb = ground arith
    order (negsuc m) (negsuc n) ha hb = ground arith

pub compare-add_int :
    (key : IndexKey) (a b : ℤ) (xs ys : Bytes)
    → IsI32 a
    → IsI32 b
    → compare_bytes ((add_int key a).bytes ++ xs) ((add_int key b).bytes ++ ys)
      ≡ then_compare (compare_ℤ a b) (compare_bytes xs ys)
unfolding add_int
compare-add_int key a b xs ys ha hb =
    rw
      (
        compare-extended (key.bytes) 4 (flipped 31 a) (flipped 31 b) xs ys (flipped_bound 31 a ha)
            (flipped_bound 31 b hb),
        compare-flipped 31 a b ha hb,
      )
      refl

pub compare-add_long :
    (key : IndexKey) (a b : ℤ) (xs ys : Bytes)
    → IsI64 a
    → IsI64 b
    → compare_bytes ((add_long key a).bytes ++ xs) ((add_long key b).bytes ++ ys)
      ≡ then_compare (compare_ℤ a b) (compare_bytes xs ys)
unfolding add_long
compare-add_long key a b xs ys ha hb =
    rw
      (
        compare-extended (key.bytes) 8 (flipped 63 a) (flipped 63 b) xs ys (flipped_bound 63 a ha)
            (flipped_bound 63 b hb),
        compare-flipped 63 a b ha hb,
      )
      refl

pub compare-add_byte :
    (key : IndexKey) (a b : ℕ) (xs ys : Bytes)
    → compare_bytes ((add_byte key a).bytes ++ xs) ((add_byte key b).bytes ++ ys)
      ≡ then_compare (compare a b) (compare_bytes xs ys)
unfolding add_byte compare_bytes
compare-add_byte key a b xs ys =
    rw
      (
        append_assoc (key.bytes) (a ∷ []) xs,
        append_assoc (key.bytes) (b ∷ []) ys,
        compare_bytes-append_same (key.bytes) (a ∷ xs) (b ∷ ys),
      )
      (ground arith)
