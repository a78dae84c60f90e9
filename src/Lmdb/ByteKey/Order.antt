-- ===== src/Lmdb/ByteKey/Order.antt =====
-- The order of byte keys is the lexicographic order of byte slices, in which a prefix comes first.
use isar_core.Prelude.{
  ℕ, suc, ◌≡◌, refl, arith, [], ◌∷◌, length, Ordering, reverse, is_le, min, true,
}
use isar_core.Prelude.Bytes.{Bytes, compare_bytes}
use isar_core.Lmdb.ByteKey.{new, cmp_bytes}

min-suc : (m n : ℕ) → min (suc m) (suc n) ≡ suc (min m n)
min-suc m n = omega arith

-- `cmp_bytes` computes the order of slices.
pub cmp_bytes-compare_bytes : (a b : Bytes) → cmp_bytes (new a) b ≡ compare_bytes a b
unfolding cmp_bytes compare_bytes new
cmp_bytes-compare_bytes [] [] = refl
cmp_bytes-compare_bytes [] (y ∷ b) = ground arith
cmp_bytes-compare_bytes (x ∷ a) [] = ground arith
cmp_bytes-compare_bytes (x ∷ a) (y ∷ b) =
    rw (min-suc (length a) (length b), cmp_bytes) (ground (arith, cmp_bytes-compare_bytes a b))

-- Swapping the slices reverses the answer.
pub compare_bytes-reverse : (a b : Bytes) → compare_bytes b a ≡ reverse (compare_bytes a b)
unfolding compare_bytes
compare_bytes-reverse [] [] = refl
compare_bytes-reverse [] (y ∷ b) = refl
compare_bytes-reverse (x ∷ a) [] = refl
compare_bytes-reverse (x ∷ a) (y ∷ b) = ground (arith, compare_bytes-reverse a b)

pub compare_bytes-eq : (a b : Bytes) → compare_bytes a b ≡ Ordering.eq → a ≡ b
unfolding compare_bytes
compare_bytes-eq [] [] h = refl
compare_bytes-eq [] (y ∷ b) h = cc
compare_bytes-eq (x ∷ a) [] h = cc
compare_bytes-eq (x ∷ a) (y ∷ b) h = ground (arith, compare_bytes-eq a b)

pub compare_bytes_trans :
    (a b c : Bytes)
    → is_le (compare_bytes a b) ≡ true
    → is_le (compare_bytes b c) ≡ true
    → is_le (compare_bytes a c) ≡ true
unfolding compare_bytes
compare_bytes_trans [] [] c h k = k
compare_bytes_trans [] (y ∷ b) [] h k = refl
compare_bytes_trans [] (y ∷ b) (z ∷ c) h k = refl
compare_bytes_trans (x ∷ a) [] c h k = cc
compare_bytes_trans (x ∷ a) (y ∷ b) [] h k = cc
compare_bytes_trans (x ∷ a) (y ∷ b) (z ∷ c) h k = ground (arith, compare_bytes_trans a b c)

-- The order of byte keys is total: two keys that compare equal are equal, swapping
-- two keys reverses the answer, and "at most" passes through a third key.
pub cmp_bytes_total_order :
    (a b c : Bytes)
    → (cmp_bytes (new a) b ≡ Ordering.eq → a ≡ b)
      × (cmp_bytes (new b) a ≡ reverse (cmp_bytes (new a) b))
      × (is_le (cmp_bytes (new a) b) ≡ true
          → is_le (cmp_bytes (new b) c) ≡ true
          → is_le (cmp_bytes (new a) c) ≡ true)
cmp_bytes_total_order a b c =
    rw
      (
        cmp_bytes-compare_bytes a b,
        cmp_bytes-compare_bytes b a,
        cmp_bytes-compare_bytes b c,
        cmp_bytes-compare_bytes a c,
      )
      (compare_bytes-eq a b, compare_bytes-reverse a b, compare_bytes_trans a b c)
