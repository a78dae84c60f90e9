-- ===== src/Lmdb/IntKey.antt =====
-- src/lmdb/mod.rs: `IntKey`, a 16-bit prefix over a 48-bit object id in one u64, and `verify_id`.
pub mod Fields
pub mod Order
pub mod Same
use isar_core.Prelude.{ℕ, ◌+◌, ◌-◌, ◌*◌, ◌/◌, ◌%◌, ◌^◌, ◌||◌, compare, Ordering}
use isar_core.Prelude.{bit_and, bit_or, bit_xor, Option, none, some, ◌==◌, length, if◌then◌else◌}
use isar_core.Prelude.Int.{
  ℤ, pos, negsuc, ltb_ℤ, to_unsigned, to_signed, wrapping_add, wrapping_sub,
}
use isar_core.Prelude.Bytes.{Bytes, to_le_bytes, from_le_bytes}
use isar_core.Error.{Result, ok, err, invalid_object_id}

abbrev pub min_id : ℤ
min_id = negsuc (2 ^ 47 - 1)

abbrev pub max_id : ℤ
max_id = pos (2 ^ 47 - 1)

abbrev pub id_prefix_mask : ℕ
id_prefix_mask = 0xffff_ffff_ffff

-- `i64::MIN - MIN_ID`
abbrev pub id_offset : ℤ
id_offset = negsuc (2 ^ 63 - 2 ^ 47 - 1)

unfoldable pub verify_id : ℤ → Result (Unit {0})
verify_id id = if ltb_ℤ id min_id || ltb_ℤ max_id id then err invalid_object_id else ok tt

pub record IntKey : Type 0 where
  pub key : ℕ

-- `prefix << 48` of a u16 keeps all its bits.
unfoldable pub new : ℕ → ℤ → IntKey
unfolding wrapping_add
new prefix id =
    let unsigned_id = to_unsigned (2 ^ 63) (wrapping_add (2 ^ 63) id id_offset) in
    let flipped = bit_xor unsigned_id (2 ^ 63) in record { key = bit_or flipped (prefix * 2 ^ 48) }

-- `none` is the panic of `try_into().unwrap()` on a slice that is not eight bytes long.
unfoldable pub from_bytes : Bytes → Option IntKey
from_bytes bytes = if length bytes == 8 then some (record { key = from_le_bytes bytes }) else none

-- The key in memory, on a little-endian machine.
unfoldable pub as_bytes : IntKey → Bytes
as_bytes k = to_le_bytes 8 k.key

unfoldable pub get_prefix : IntKey → ℕ
get_prefix k = k.key / 2 ^ 48 % 2 ^ 16

unfoldable pub get_id : IntKey → ℤ
unfolding wrapping_sub
get_id k =
    let signed = to_signed (2 ^ 63) (bit_xor (bit_and k.key id_prefix_mask) (2 ^ 63)) in
    wrapping_sub (2 ^ 63) signed id_offset

-- The comparison with a key in the database; `none` is the panic on a key of another length.
unfoldable pub cmp_bytes : IntKey → Bytes → Option Ordering
cmp_bytes k other = if length other == 8 then some (compare k.key (from_le_bytes other)) else none
