-- ===== src/Object/IsarObject.antt =====
-- src/object/isar_object.rs: reading the properties of an object from its bytes. Strings are their
-- UTF-8 bytes, and floats are their bits. `panic` is a failed `assert_eq!` or a slice out of range.
pub mod Compare
pub mod Hash
use isar_core.Prelude.{ℕ, zero, suc, ◌+◌, ◌-◌, ◌%◌, ◌^◌, Bool, true, false, ◌||◌, leb, ltb, ◌==◌}
use isar_core.Prelude.{
  if◌then◌else◌, Option, none, some, List, [], ◌∷◌, length, take, drop, get_elem?,
}
use isar_core.Prelude.Int.{ℤ, negsuc, to_signed, eqb_ℤ}
use isar_core.Prelude.Bytes.{Bytes, from_le_bytes}
use isar_core.Error.{Result, ok, err, panic, ◌>>=◌, ◌>>◌, assert, unwrap}
use isar_core.Object.DataType.{DataType, is_type}
use isar_core.Object.ObjectInfo.{Property}

pub record IsarObject : Type 0 where
  pub bytes : Bytes
  pub static_size : ℕ

abbrev pub null_byte : ℕ
null_byte = 0

abbrev pub false_byte : ℕ
false_byte = 1

abbrev pub true_byte : ℕ
true_byte = 2

-- `i32::MIN` and `i64::MIN`.
abbrev pub null_int : ℤ
null_int = negsuc (2 ^ 31 - 1)

abbrev pub null_long : ℤ
null_long = negsuc (2 ^ 63 - 1)

-- The bits of `f32::NAN` and `f64::NAN`.
abbrev pub null_float : ℕ
null_float = 0x7fc0_0000

abbrev pub null_double : ℕ
null_double = 0x7ff8_0000_0000_0000

-- `is_nan`: all bits of the exponent are set, and some bit of the mantissa is.
abbrev pub is_nan_f32 : ℕ → Bool
is_nan_f32 bits = ltb 0x7f80_0000 (bits % 2 ^ 31)

abbrev pub is_nan_f64 : ℕ → Bool
is_nan_f64 bits = ltb 0x7ff0_0000_0000_0000 (bits % 2 ^ 63)

-- `&bytes[offset..offset + count]`.
unfoldable pub slice : ℕ → ℕ → Bytes → Result Bytes
slice offset count bytes =
    if leb (offset + count) (length bytes) then ok (take count (drop offset bytes)) else panic

-- `LittleEndian::read_uN(&bytes[offset..])`, of `w` bytes.
unfoldable pub read_le : ℕ → ℕ → Bytes → Result ℕ
unfolding slice
read_le w offset bytes = do word ← slice offset w bytes; ok (from_le_bytes word)

-- `LittleEndian::read_iN(&bytes[offset..])`, of `w` bytes and the sign bit `half`.
unfoldable pub read_signed : ℕ → ℕ → ℕ → Bytes → Result ℤ
unfolding read_le
read_signed half w offset bytes = do word ← read_le w offset bytes; ok (to_signed half word)

unfoldable pub from_bytes : Bytes → Result IsarObject
unfolding read_le
from_bytes bytes = do
  static_size ← read_le 2 0 bytes
  ok (record { bytes = bytes; static_size = static_size })

unfoldable pub contains_offset : IsarObject → ℕ → Bool
contains_offset o offset = ltb offset o.static_size

unfoldable pub contains_property : IsarObject → Property → Bool
unfolding contains_offset
contains_property o p = contains_offset o p.offset

unfoldable pub read_byte : IsarObject → Property → Result ℕ
unfolding is_type contains_property
read_byte o p = do
  assert (is_type p.data_type DataType.byte)
  if contains_property o p then unwrap (get_elem? o.bytes p.offset) else ok null_byte

unfoldable pub read_bool : IsarObject → Property → Result Bool
unfolding read_byte
read_bool o p = do byte ← read_byte o p; ok (byte == true_byte)

unfoldable pub read_int : IsarObject → Property → Result ℤ
unfolding is_type contains_property read_signed
read_int o p = do
  assert (is_type p.data_type DataType.int)
  if contains_property o p then read_signed (2 ^ 31) 4 p.offset o.bytes else ok null_int

unfoldable pub read_float : IsarObject → Property → Result ℕ
unfolding is_type contains_property read_le
read_float o p = do
  assert (is_type p.data_type DataType.float)
  if contains_property o p then read_le 4 p.offset o.bytes else ok null_float

unfoldable pub read_long : IsarObject → Property → Result ℤ
unfolding is_type contains_property read_signed
read_long o p = do
  assert (is_type p.data_type DataType.long)
  if contains_property o p then read_signed (2 ^ 63) 8 p.offset o.bytes else ok null_long

unfoldable pub read_double : IsarObject → Property → Result ℕ
unfolding is_type contains_property read_le
read_double o p = do
  assert (is_type p.data_type DataType.double)
  if contains_property o p then read_le 8 p.offset o.bytes else ok null_double

-- Where a list stands and how many elements it has; `none` is the null list.
unfoldable pub get_offset_length : IsarObject → ℕ → Bool → Result (Option (ℕ × ℕ))
unfolding contains_offset read_le
get_offset_length o offset dynamic_offset =
    if dynamic_offset || contains_offset o offset
    then (do
      list_offset ← read_le 4 offset o.bytes
      length ← read_le 4 (offset + 4) o.bytes
      ok (if list_offset == 0 then none else some (list_offset, length)))
    else ok none

-- Runs a reader on the position of a list that is not null.
abbrev pub at_list {ℓ} :
    {A : Type ℓ} → Result (Option (ℕ × ℕ)) → (ℕ → ℕ → Result A) → Result (Option A)
at_list (ok none) read = ok none
at_list (ok (some (offset, length))) read = do a ← read offset length; ok (some a)
at_list (err e) read = err e
at_list panic read = panic

unfoldable pub read_string_at : IsarObject → ℕ → Bool → Result (Option Bytes)
unfolding get_offset_length slice
read_string_at o offset dynamic_offset =
    at_list (get_offset_length o offset dynamic_offset)
      (λ offset length. slice offset length o.bytes)

unfoldable pub read_string : IsarObject → Property → Result (Option Bytes)
unfolding is_type read_string_at
read_string o p = do assert (is_type p.data_type DataType.string); read_string_at o p.offset false

unfoldable pub read_byte_list : IsarObject → Property → Result (Option Bytes)
unfolding is_type get_offset_length slice
read_byte_list o p = do
  assert (is_type p.data_type DataType.byte_list)
  at_list (get_offset_length o p.offset false) (λ offset length. slice offset length o.bytes)

-- The iterator over `(offset..offset + length * size).step_by(size)`, collected.
unfoldable pub read_elements {ℓ} : {A : Type ℓ} → (ℕ → Result A) → ℕ → ℕ → ℕ → Result (List A)
read_elements read size offset zero = ok []
read_elements read size offset (suc length) = do
  a ← read offset
  rest ← read_elements read size (offset + size) length
  ok (a ∷ rest)

-- A list of words of `size` bytes.
unfoldable pub read_words : IsarObject → ℕ → Property → Result (Option (List ℕ))
unfolding get_offset_length read_elements read_le
read_words o size p =
    at_list (get_offset_length o p.offset false)
      (read_elements (λ offset. read_le size offset o.bytes) size)

unfoldable pub read_integers : IsarObject → ℕ → ℕ → Property → Result (Option (List ℤ))
unfolding get_offset_length read_elements read_signed
read_integers o half size p =
    at_list (get_offset_length o p.offset false)
      (read_elements (λ offset. read_signed half size offset o.bytes) size)

unfoldable pub read_int_list : IsarObject → Property → Result (Option (List ℤ))
unfolding is_type read_integers
read_int_list o p = do assert (is_type p.data_type DataType.int_list); read_integers o (2 ^ 31) 4 p

unfoldable pub read_float_list : IsarObject → Property → Result (Option (List ℕ))
unfolding is_type read_words
read_float_list o p = do assert (is_type p.data_type DataType.float_list); read_words o 4 p

unfoldable pub read_long_list : IsarObject → Property → Result (Option (List ℤ))
unfolding is_type read_integers
read_long_list o p = do
  assert (is_type p.data_type DataType.long_list)
  read_integers o (2 ^ 63) 8 p

unfoldable pub read_double_list : IsarObject → Property → Result (Option (List ℕ))
unfolding is_type read_words
read_double_list o p = do assert (is_type p.data_type DataType.double_list); read_words o 8 p

unfoldable pub read_string_list : IsarObject → Property → Result (Option (List (Option Bytes)))
unfolding is_type get_offset_length read_elements read_string_at
read_string_list o p = do
  assert (is_type p.data_type DataType.string_list)
  at_list (get_offset_length o p.offset false)
      (read_elements (λ offset. read_string_at o offset true) 8)

abbrev is_none {ℓ} : {A : Type ℓ} → Option A → Bool
is_none none = true
is_none (some a) = false

-- A switch on the type of the property.
unfoldable pub is_null : IsarObject → Property → Result Bool
unfolding read_byte read_int read_long read_float read_double get_offset_length
is_null o p = elim (p.data_type) [
  | DataType.byte ↦ (do byte ← read_byte o p; ok (byte == null_byte))
  | DataType.int ↦ (do int ← read_int o p; ok (eqb_ℤ int null_int))
  | DataType.long ↦ (do long ← read_long o p; ok (eqb_ℤ long null_long))
  | DataType.float ↦ (do bits ← read_float o p; ok (is_nan_f32 bits))
  | DataType.double ↦ (do bits ← read_double o p; ok (is_nan_f64 bits))
  | _ ↦ (do position ← get_offset_length o p.offset false; ok (is_none position))
]
