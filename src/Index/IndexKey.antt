-- ===== src/Index/IndexKey.antt =====
-- src/index/index_key.rs: the bytes of a key in an index. Floats are their bits.
pub mod Floats
pub mod Numbers
pub mod Strings
use isar_core.Prelude.{
  ℕ, ◌+◌, ◌-◌, ◌*◌, ◌^◌, Bool, ltb, leb, if◌then◌else◌, bit_xor, Option, none, some, List, [], ◌∷◌,
}
use isar_core.Prelude.{◌++◌, length, take}
use isar_core.Prelude.Int.{ℤ, to_unsigned}
use isar_core.Prelude.Bytes.{Bytes, to_le_bytes, to_be_bytes}
use isar_core.Object.IsarObject.{is_nan_f32, is_nan_f64}
use isar_core.Index.Hashing.{Hashing, Unicode}
use isar_core.Index.Types.{Index, get_prefix, max_string_index_size}

pub record IndexKey : Type 0 where
  pub index : Index
  pub bytes : Bytes

unfoldable pub new : Index → IndexKey
unfolding get_prefix
new index = record { index = index; bytes = get_prefix index }

-- The buffer is cleared, so only its capacity is used.
unfoldable pub with_buffer : Index → Bytes → IndexKey
unfolding get_prefix
with_buffer index buffer = record { index = index; bytes = get_prefix index }

abbrev extend : IndexKey → Bytes → IndexKey
extend key more = record key { bytes = key.bytes ++ more }

unfoldable pub add_byte : IndexKey → ℕ → IndexKey
add_byte key value = extend key (value ∷ [])

unfoldable pub add_int : IndexKey → ℤ → IndexKey
add_int key value = extend key (to_be_bytes 4 (bit_xor (to_unsigned (2 ^ 31) value) (2 ^ 31)))

unfoldable pub add_long : IndexKey → ℤ → IndexKey
add_long key value = extend key (to_be_bytes 8 (bit_xor (to_unsigned (2 ^ 63) value) (2 ^ 63)))

-- The bits of a float that is not NaN, with the sign bit `half`: positive ones are raised, and of
-- negative ones the complement of the bits of `-value` is lowered.
unfoldable pub ordered_bits : ℕ → ℕ → ℕ
ordered_bits half bits =
    if ltb bits half then bits + half else (2 * half - 1 - (bits - half)) - half

unfoldable pub add_float : IndexKey → ℕ → IndexKey
unfolding ordered_bits
add_float key value =
    extend key (to_be_bytes 4 (if is_nan_f32 value then 0 else ordered_bits (2 ^ 31) value))

unfoldable pub add_double : IndexKey → ℕ → IndexKey
unfolding ordered_bits
add_double key value =
    extend key (to_be_bytes 8 (if is_nan_f64 value then 0 else ordered_bits (2 ^ 63) value))

module _ (u : Unicode) where
  -- The string as an index sees it.
  unfoldable pub with_case : Bytes → Bool → Bytes
  with_case value case_sensitive = if case_sensitive then value else u.to_lowercase value

  unfoldable pub add_string_hash : Hashing → IndexKey → Option Bytes → Bool → IndexKey
  unfolding with_case
  add_string_hash h key none case_sensitive = extend key (to_be_bytes 8 0)
  add_string_hash h key (some value) case_sensitive =
      let hasher = h.write_usize (length value) h.default in
      extend key (to_be_bytes 8 (h.finish (h.write (with_case value case_sensitive) hasher)))

  -- A long string is cut, and the hash of the whole follows it.
  unfoldable pub add_string_value : Hashing → IndexKey → Option Bytes → Bool → IndexKey
  unfolding with_case
  add_string_value h key none case_sensitive = extend key (0 ∷ [])
  add_string_value h key (some value) case_sensitive =
      let bytes = with_case value case_sensitive in
      extend key (
        1
        ∷ (if leb max_string_index_size (length bytes)
            then take max_string_index_size bytes ++ (0 ∷ to_le_bytes 8 (h.wyhash bytes 0))
            else bytes ++ (0 ∷ [])))

  unfoldable pub add_string_word : IndexKey → Bytes → Bool → IndexKey
  unfolding with_case
  add_string_word key value case_sensitive = extend key (with_case value case_sensitive)
