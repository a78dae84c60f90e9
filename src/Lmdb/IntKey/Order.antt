-- ===== src/Lmdb/IntKey/Order.antt =====
-- The order of the keys in the database is the order of prefixes, and of ids under one prefix.
use isar_core.Prelude.{ℕ, ◌+◌, ◌*◌, ◌^◌, ◌<◌, ◌≡◌, some, arith, compare}
use isar_core.Prelude.Int.{ℤ, pos, negsuc, compare_ℤ}
use isar_core.Prelude.Bytes.{length-to_le_bytes, from_le_bytes-to_le_bytes, then_compare}
use isar_core.Error.{ok}
use isar_core.Lmdb.IntKey.{verify_id, new, as_bytes, cmp_bytes}
use isar_core.Lmdb.IntKey.Fields.{new-key, id_bits}

compare-fields :
    (p q a b : ℕ)
    → a < 2 ^ 48
    → b < 2 ^ 48
    → compare (p * 2 ^ 48 + a) (q * 2 ^ 48 + b) ≡ then_compare (compare p q) (compare a b)
compare-fields p q a b ha hb = ground arith

compare-id_bits :
    (a b : ℤ)
    → verify_id a ≡ ok tt
    → verify_id b ≡ ok tt
    → compare (id_bits a) (id_bits b) ≡ compare_ℤ a b
unfolding verify_id
compare-id_bits (pos m) (pos n) ha hb = ground arith
compare-id_bits (pos m) (negsuc n) ha hb = ground arith
compare-id_bits (negsuc m) (pos n) ha hb = ground arith
compare-id_bits (negsuc m) (negsuc n) ha hb = ground arith

-- Comparing a key with the stored bytes of another compares the prefixes first and then the ids as
-- signed integers; it never panics.
pub cmp_bytes-new :
    (p q : ℕ) (a b : ℤ)
    → p < 2 ^ 16
    → q < 2 ^ 16
    → verify_id a ≡ ok tt
    → verify_id b ≡ ok tt
    → cmp_bytes (new p a) (as_bytes (new q b)) ≡ some (then_compare (compare p q) (compare_ℤ a b))
unfolding cmp_bytes as_bytes
cmp_bytes-new p q a b hp hq ha hb =
    let (ea, la) = new-key p a ha in
    let (eb, lb) = new-key q b hb in
    ground (
      arith,
      length-to_le_bytes 8 (new q b).key,
      from_le_bytes-to_le_bytes 8 (new q b).key,
      compare-fields p q (id_bits a) (id_bits b),
      compare-id_bits a b ha hb,
    )
