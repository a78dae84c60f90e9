-- ===== src/Lmdb/IntKey/Fields.antt =====
-- A key keeps its two fields, and its bytes keep the key.
use isar_core.Prelude.{ℕ, ◌+◌, ◌-◌, ◌*◌, ◌^◌, ◌<◌, ◌≡◌, some, arith}
use isar_core.Prelude.Int.{ℤ, pos, negsuc, pos_part, neg_part}
use isar_core.Prelude.Bits.{bit_xor_set, bit_xor_clear, bit_or_field, bit_and_mask}
use isar_core.Prelude.Bytes.{length-to_le_bytes, from_le_bytes-to_le_bytes}
use isar_core.Error.{ok}
use isar_core.Lmdb.IntKey.{verify_id, IntKey, new, from_bytes, as_bytes, get_prefix, get_id}

-- The 48 bits that stand for an id: its distance from `min_id`.
abbrev pub id_bits : ℤ → ℕ
id_bits id = pos_part id + 2 ^ 47 - neg_part id

pub new-key :
    (prefix : ℕ) (id : ℤ)
    → verify_id id ≡ ok tt
    → ((new prefix id).key ≡ prefix * 2 ^ 48 + id_bits id) × (id_bits id < 2 ^ 48)
unfolding verify_id new
new-key prefix (pos n) h =
    ground (arith, bit_xor_clear 63 (n + 2 ^ 47), bit_or_field 48 prefix (n + 2 ^ 47))
new-key prefix (negsuc n) h =
    ground (arith, bit_xor_clear 63 (2 ^ 47 - 1 - n), bit_or_field 48 prefix (2 ^ 47 - 1 - n))

-- What the two accessors read from a key that is put together from its fields.
get_prefix-fields :
    (k : IntKey) (prefix bits : ℕ)
    → prefix < 2 ^ 16
    → bits < 2 ^ 48
    → k.key ≡ prefix * 2 ^ 48 + bits
    → get_prefix k ≡ prefix
unfolding get_prefix
get_prefix-fields k prefix bits hp hb e = omega arith

get_id-fields :
    (k : IntKey) (prefix : ℕ) (id : ℤ)
    → verify_id id ≡ ok tt
    → k.key ≡ prefix * 2 ^ 48 + id_bits id
    → get_id k ≡ id
unfolding get_id verify_id
get_id-fields k prefix (pos n) h e =
    ground (arith, bit_and_mask 48 k.key, bit_xor_set 63 (n + 2 ^ 47))
get_id-fields k prefix (negsuc n) h e =
    ground (arith, bit_and_mask 48 k.key, bit_xor_set 63 (2 ^ 47 - 1 - n))

-- A key built from a 16-bit prefix and an id that `verify_id` accepts gives both back.
pub new_round_trip :
    (prefix : ℕ) (id : ℤ)
    → prefix < 2 ^ 16
    → verify_id id ≡ ok tt
    → (get_prefix (new prefix id) ≡ prefix) × (get_id (new prefix id) ≡ id)
new_round_trip prefix id hp h =
    let (e, bound) = new-key prefix id h in
    (get_prefix-fields _ prefix (id_bits id) hp bound e, get_id-fields _ prefix id h e)

-- The bytes of a key that fits a u64 are read back as that key.
pub from_bytes-as_bytes : (k : IntKey) → k.key < 2 ^ 64 → from_bytes (as_bytes k) ≡ some k
unfolding from_bytes as_bytes
from_bytes-as_bytes k h =
    ground (arith, length-to_le_bytes 8 k.key, from_le_bytes-to_le_bytes 8 k.key)
