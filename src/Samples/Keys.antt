-- ===== src/Samples/Keys.antt =====
-- Keys of the database at concrete prefixes, ids and bytes.
use isar_core.Prelude.{
  ◌≡◌, refl, [], ◌∷◌, ◌-◌, ◌^◌, compare, Ordering, reverse, some, is_le, true, arith,
}
use isar_core.Prelude.Int.{pos, negsuc, compare_ℤ, wrapping_sub}
use isar_core.Prelude.Bytes.{Bytes, compare_bytes, then_compare}
use isar_core.Error.{err, invalid_object_id}
use isar_core.Lmdb.IntKey
use isar_core.Lmdb.IntKey.{min_id, max_id, id_offset, verify_id}
use isar_core.Lmdb.IntKey.Fields.{new_round_trip, from_bytes-as_bytes}
use isar_core.Lmdb.IntKey.Order.{cmp_bytes-new}
use isar_core.Lmdb.ByteKey
use isar_core.Lmdb.ByteKey.Order.{cmp_bytes-compare_bytes, cmp_bytes_total_order}

offset_is_difference : wrapping_sub (2 ^ 63) (negsuc (2 ^ 63 - 1)) min_id ≡ id_offset
unfolding wrapping_sub
offset_is_difference = refl

smallest_id : (IntKey.new 0 min_id).key ≡ 0
unfolding IntKey.new
smallest_id = refl

largest_id : (IntKey.new 0xffff max_id).key ≡ 2 ^ 64 - 1
unfolding IntKey.new
largest_id = refl

id_out_of_range : verify_id (pos (2 ^ 47)) ≡ err invalid_object_id
unfolding verify_id
id_out_of_range = refl

new_round_trip_example :
    (IntKey.get_prefix (IntKey.new 7 (negsuc 41)) ≡ 7)
    × (IntKey.get_id (IntKey.new 7 (negsuc 41)) ≡ negsuc 41)
unfolding verify_id
new_round_trip_example = new_round_trip 7 (negsuc 41) (omega arith) refl

from_bytes-as_bytes_example :
    IntKey.from_bytes (IntKey.as_bytes (record { key = 258 })) ≡ some (record { key = 258 })
from_bytes-as_bytes_example = from_bytes-as_bytes (record { key = 258 }) (omega arith)

cmp_bytes-new_example :
    IntKey.cmp_bytes (IntKey.new 3 (negsuc 0)) (IntKey.as_bytes (IntKey.new 3 (pos 5)))
    ≡ some (then_compare (compare 3 3) (compare_ℤ (negsuc 0) (pos 5)))
unfolding verify_id
cmp_bytes-new_example = cmp_bytes-new 3 3 (negsuc 0) (pos 5) (omega arith) (omega arith) refl refl

abbrev short_key : Bytes
short_key = 1 ∷ 2 ∷ []

abbrev long_key : Bytes
long_key = 1 ∷ 2 ∷ 0 ∷ []

abbrev high_key : Bytes
high_key = 2 ∷ []

cmp_bytes-compare_bytes_example :
    ByteKey.cmp_bytes (ByteKey.new short_key) long_key ≡ compare_bytes short_key long_key
cmp_bytes-compare_bytes_example = cmp_bytes-compare_bytes short_key long_key

cmp_bytes_total_order_example :
    (ByteKey.cmp_bytes (ByteKey.new short_key) long_key ≡ Ordering.eq → short_key ≡ long_key)
    × (ByteKey.cmp_bytes (ByteKey.new long_key) short_key
        ≡ reverse (ByteKey.cmp_bytes (ByteKey.new short_key) long_key))
    × (is_le (ByteKey.cmp_bytes (ByteKey.new short_key) long_key) ≡ true
        → is_le (ByteKey.cmp_bytes (ByteKey.new long_key) high_key) ≡ true
        → is_le (ByteKey.cmp_bytes (ByteKey.new short_key) high_key) ≡ true)
cmp_bytes_total_order_example = cmp_bytes_total_order short_key long_key high_key
