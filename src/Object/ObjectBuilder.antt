-- ===== src/Object/ObjectBuilder.antt =====
-- src/object/object_builder.rs: writing the properties of an object in their order. Every method
-- returns the builder that it leaves, or the `panic` of an `unwrap` or an `assert_eq!`. Lists are
-- copied as they lie in the memory of a little-endian machine.
pub mod Buffer
pub mod Value
pub mod Stored
pub mod Lists
pub mod Put
pub mod Read
pub mod ReadValue
pub mod WriteAll
pub mod RoundTrip
use isar_core.Prelude.{ℕ, zero, suc, ◌+◌, ◌-◌, ◌*◌, ◌%◌, ◌^◌, Bool, true, false, ltb, ◌==◌}
use isar_core.Prelude.{
  if◌then◌else◌, Option, none, some, List, [], ◌∷◌, ◌++◌, length, replicate, get_elem?,
}
use isar_core.Prelude.Int.{ℤ, to_unsigned}
use isar_core.Prelude.Bytes.{Bytes, to_le_bytes}
use isar_core.Error.{Result, ok, ◌>>=◌, ◌>>◌, assert, unwrap}
use isar_core.Object.DataType.{DataType, is_type}
use isar_core.Object.ObjectInfo.{Property, ObjectInfo}
use isar_core.Object.IsarObject
use isar_core.Object.IsarObject.{IsarObject}

pub record ObjectBuilder : Type 0 where
  pub buffer : Bytes
  pub object_info : ObjectInfo
  pub property_index : ℕ
  pub dynamic_offset : ℕ

-- `Vec::resize(required, 0)`, called to grow.
unfoldable pub resize : Bytes → ℕ → Bytes
resize buffer required = buffer ++ replicate (required - length buffer) 0

-- `buffer[offset..(offset + bytes.len())].clone_from_slice(bytes)` in a buffer that is long enough.
unfoldable pub clone_from_slice : Bytes → ℕ → Bytes → Bytes
clone_from_slice buffer zero [] = buffer
clone_from_slice (x ∷ buffer) zero (b ∷ bytes) = b ∷ clone_from_slice buffer zero bytes
clone_from_slice [] zero (b ∷ bytes) = []
clone_from_slice [] (suc offset) bytes = []
clone_from_slice (x ∷ buffer) (suc offset) bytes = x ∷ clone_from_slice buffer offset bytes

unfoldable pub write_buffer : Bytes → ℕ → Bytes → Bytes
unfolding resize clone_from_slice
write_buffer buffer offset bytes =
    let end = offset + length bytes in
    clone_from_slice (if ltb (length buffer) end then resize buffer end else buffer) offset bytes

unfoldable pub write_at : ObjectBuilder → ℕ → Bytes → ObjectBuilder
unfolding write_buffer
write_at ob offset bytes = record ob { buffer = write_buffer ob.buffer offset bytes }

-- A recycled buffer comes empty, as `recycle` clears it. The size is cut to a u16.
unfoldable pub new : ObjectInfo → Option Bytes → ObjectBuilder
unfolding write_at
new object_info buffer =
    let ob : ObjectBuilder = record {
      buffer = elim buffer [ none ↦ [] | some recycled ↦ recycled ];
      object_info = object_info;
      property_index = 0;
      dynamic_offset = object_info.static_size;
    } in
    write_at ob 0 (to_le_bytes 2 (object_info.static_size % 2 ^ 16))

-- The property at the index and, unless it is only peeked at, the builder behind it.
unfoldable pub get_next_property : ObjectBuilder → Bool → Result (Property × ObjectBuilder)
get_next_property ob peek = do
  (name, property) ← unwrap (get_elem? ob.object_info.properties ob.property_index)
  ok (property, if peek then ob else record ob { property_index = ob.property_index + 1 })

-- The next property, if it is of the type `t`.
unfoldable pub next_of_type : ObjectBuilder → DataType → Result (Property × ObjectBuilder)
unfolding get_next_property is_type
next_of_type ob t = do
  (property, next) ← get_next_property ob false
  assert (is_type property.data_type t)
  ok (property, next)

unfoldable pub write_byte : ObjectBuilder → ℕ → Result ObjectBuilder
unfolding next_of_type write_at
write_byte ob value = do
  (property, next) ← next_of_type ob DataType.byte
  ok (write_at next property.offset (value ∷ []))

unfoldable pub write_bool : ObjectBuilder → Bool → Result ObjectBuilder
unfolding write_byte
write_bool ob value = write_byte ob (if value then IsarObject.true_byte else IsarObject.false_byte)

-- `to_le_bytes` of an `iN` of `w` bytes and the sign bit `half`.
abbrev pub signed_bytes : ℕ → ℕ → ℤ → Bytes
signed_bytes half w value = to_le_bytes w (to_unsigned half value)

unfoldable pub write_int : ObjectBuilder → ℤ → Result ObjectBuilder
unfolding next_of_type write_at
write_int ob value = do
  (property, next) ← next_of_type ob DataType.int
  ok (write_at next property.offset (signed_bytes (2 ^ 31) 4 value))

unfoldable pub write_float : ObjectBuilder → ℕ → Result ObjectBuilder
unfolding next_of_type write_at
write_float ob value = do
  (property, next) ← next_of_type ob DataType.float
  ok (write_at next property.offset (to_le_bytes 4 value))

unfoldable pub write_long : ObjectBuilder → ℤ → Result ObjectBuilder
unfolding next_of_type write_at
write_long ob value = do
  (property, next) ← next_of_type ob DataType.long
  ok (write_at next property.offset (signed_bytes (2 ^ 63) 8 value))

unfoldable pub write_double : ObjectBuilder → ℕ → Result ObjectBuilder
unfolding next_of_type write_at
write_double ob value = do
  (property, next) ← next_of_type ob DataType.double
  ok (write_at next property.offset (to_le_bytes 8 value))

-- The memory of a list, whose elements have the bytes that `memory` gives.
unfoldable pub list_bytes {ℓ} : {A : Type ℓ} → (A → Bytes) → List A → Bytes
list_bytes memory [] = []
list_bytes memory (a ∷ list) = memory a ++ list_bytes memory list

-- The position and the length go to `offset`, the elements to the end of the object.
unfoldable pub write_list {ℓ} :
    {A : Type ℓ} → (A → Bytes) → ObjectBuilder → ℕ → Option (List A) → ObjectBuilder
unfolding write_at list_bytes
write_list memory ob offset (some list) =
    let ob₁ = write_at ob offset (to_le_bytes 4 (ob.dynamic_offset % 2 ^ 32)) in
    let ob₂ = write_at ob₁ (offset + 4) (to_le_bytes 4 (length list % 2 ^ 32)) in
    let bytes = list_bytes memory list in
    let ob₃ = write_at ob₂ ob₂.dynamic_offset bytes in
    record ob₃ { dynamic_offset = ob₃.dynamic_offset + length bytes }
write_list memory ob offset none = write_at ob offset (to_le_bytes 8 0)

abbrev pub byte_bytes : ℕ → Bytes
byte_bytes b = b ∷ []

unfoldable pub write_string : ObjectBuilder → Option Bytes → Result ObjectBuilder
unfolding next_of_type write_list
write_string ob value = do
  (property, next) ← next_of_type ob DataType.string
  ok (write_list byte_bytes next property.offset value)

unfoldable pub write_byte_list : ObjectBuilder → Option Bytes → Result ObjectBuilder
unfolding next_of_type write_list
write_byte_list ob value = do
  (property, next) ← next_of_type ob DataType.byte_list
  ok (write_list byte_bytes next property.offset value)

unfoldable pub write_int_list : ObjectBuilder → Option (List ℤ) → Result ObjectBuilder
unfolding next_of_type write_list
write_int_list ob value = do
  (property, next) ← next_of_type ob DataType.int_list
  ok (write_list (signed_bytes (2 ^ 31) 4) next property.offset value)

unfoldable pub write_float_list : ObjectBuilder → Option (List ℕ) → Result ObjectBuilder
unfolding next_of_type write_list
write_float_list ob value = do
  (property, next) ← next_of_type ob DataType.float_list
  ok (write_list (to_le_bytes 4) next property.offset value)

unfoldable pub write_long_list : ObjectBuilder → Option (List ℤ) → Result ObjectBuilder
unfolding next_of_type write_list
write_long_list ob value = do
  (property, next) ← next_of_type ob DataType.long_list
  ok (write_list (signed_bytes (2 ^ 63) 8) next property.offset value)

unfoldable pub write_double_list : ObjectBuilder → Option (List ℕ) → Result ObjectBuilder
unfolding next_of_type write_list
write_double_list ob value = do
  (property, next) ← next_of_type ob DataType.double_list
  ok (write_list (to_le_bytes 8) next property.offset value)

-- The loop over the strings of a list: one entry of the table and the bytes of one string a round.
unfoldable pub write_strings : ObjectBuilder → ℕ → List (Option Bytes) → ObjectBuilder
unfolding write_list
write_strings ob offset_list_offset [] = ob
write_strings ob offset_list_offset (str ∷ value) =
    write_strings (write_list byte_bytes ob offset_list_offset str) (offset_list_offset + 8) value

unfoldable pub write_string_list :
    ObjectBuilder → Option (List (Option Bytes)) → Result ObjectBuilder
unfolding next_of_type write_strings
write_string_list ob value = do
  (property, next) ← next_of_type ob DataType.string_list
  ok (elim value [
    | some list ↦
        let ob₁ = write_at next property.offset (to_le_bytes 4 (next.dynamic_offset % 2 ^ 32)) in
        let ob₂ = write_at ob₁ (property.offset + 4) (to_le_bytes 4 (length list % 2 ^ 32)) in
        write_strings (record ob₂ { dynamic_offset = ob₂.dynamic_offset + length list * 8 })
          ob₂.dynamic_offset list
    | none ↦ write_at next property.offset (to_le_bytes 8 0)
  ])

-- A switch on the type of the next property.
unfoldable pub write_null : ObjectBuilder → Result ObjectBuilder
unfolding get_next_property
write_null ob = do
  (property, same) ← get_next_property ob true
  elim (property.data_type) [
    | DataType.byte ↦ write_byte ob IsarObject.null_byte
    | DataType.int ↦ write_int ob IsarObject.null_int
    | DataType.float ↦ write_float ob IsarObject.null_float
    | DataType.long ↦ write_long ob IsarObject.null_long
    | DataType.double ↦ write_double ob IsarObject.null_double
    | DataType.string ↦ write_string ob none
    | DataType.byte_list ↦ write_byte_list ob none
    | DataType.int_list ↦ write_int_list ob none
    | DataType.float_list ↦ write_float_list ob none
    | DataType.long_list ↦ write_long_list ob none
    | DataType.double_list ↦ write_double_list ob none
    | DataType.string_list ↦ write_string_list ob none
  ]

unfoldable pub finish : ObjectBuilder → Result IsarObject
unfolding IsarObject.from_bytes
finish ob = do
  assert (ob.property_index == length ob.object_info.properties)
  IsarObject.from_bytes ob.buffer

unfoldable pub recycle : ObjectBuilder → Bytes
recycle ob = []
