-- ===== src/Lmdb/ByteKey.antt =====
-- src/lmdb/mod.rs: `ByteKey`, a key that is a byte slice, and its order.
pub mod Order
use isar_core.Prelude.{length, take, min, compare, Ordering}
use isar_core.Prelude.Bytes.{Bytes, compare_bytes}

pub record ByteKey : Type 0 where
  pub bytes : Bytes

unfoldable pub new : Bytes → ByteKey
new bytes = record { bytes = bytes }

-- The common prefix first, and the lengths where it is equal.
unfoldable pub cmp_bytes : ByteKey → Bytes → Ordering
cmp_bytes k other =
    let len = min (length k.bytes) (length other) in
    elim (compare_bytes (take len k.bytes) (take len other)) [
      | Ordering.eq ↦ compare (length k.bytes) (length other)
      | Ordering.lt ↦ Ordering.lt
      | Ordering.gt ↦ Ordering.gt
    ]
