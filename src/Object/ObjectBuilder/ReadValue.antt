-- ===== src/Object/ObjectBuilder/ReadValue.antt =====
-- The methods of the object read back every form of value.
use isar_core.Prelude.{ℕ, ◌*◌, ◌^◌, ◌≤◌, ◌<◌, ◌≡◌, refl, arith, ltb, true, false}
use isar_core.Prelude.{Option, none, some, List, length, All}
use isar_core.Prelude.Int.{ℤ, IsSigned}
use isar_core.Prelude.Bytes.{Bytes, to_le_bytes}
use isar_core.Error.{ok}
use isar_core.Object.DataType.{DataType}
use isar_core.Object.ObjectInfo.{Property}
use isar_core.Object.IsarObject
use isar_core.Object.IsarObject.{
  IsarObject, contains_offset, read_le, read_signed, read_elements, at_list, get_offset_length,
  read_string_at, slice,
}
use isar_core.Object.ObjectBuilder.{signed_bytes, byte_bytes}
use isar_core.Object.ObjectBuilder.Buffer.{read_le-At}
use isar_core.Object.ObjectBuilder.Value.{
  Value, byte, int, float, long, double, string, byte_list, int_list, float_list, long_list,
  double_list, string_list, type_of, read, form, IsValid, AllIn, list_of,
}
use isar_core.Object.ObjectBuilder.Stored.{
  StoredList, Stored, in_place, in_list, null_strings, in_table,
}
use isar_core.Object.ObjectBuilder.Read.{
  InOption, read_signed-At, read_elements-At, position-Header, position-null, at_list-StoredList,
  read_string_at-StoredList, read_strings-StoredTable,
}

AllIn→InOption {ℓ} :
    {A : Type ℓ} (P : A → Type 0) (l : Option (List A)) → AllIn P l → InOption (All P) l
AllIn→InOption P none h = tt
AllIn→InOption P (some l) h = h

module _ (o : IsarObject) (lo : ℕ) (positive : 0 < lo) (offset : ℕ)
    (contained : ltb offset o.static_size ≡ true) where
  abbrev pub at : DataType → Property
  at t = record { data_type = t; offset = offset }

  -- Lists of words and of integers.
  words :
      (w : ℕ) (l : Option (List ℕ))
      → ((n : ℕ) → length (to_le_bytes w n) ≡ w)
      → AllIn (λ n. n < 256 ^ w) l
      → StoredList o.bytes lo offset (list_of (to_le_bytes w) l)
      → at_list
          (get_offset_length o offset false)
          (read_elements (λ offset. read_le w offset o.bytes) w)
        ≡ ok l
  words w l same valid h =
      at_list-StoredList o lo positive (to_le_bytes w)
        (read_elements (λ offset. read_le w offset o.bytes) w) (All (λ n. n < 256 ^ w)) offset false
        l (unfold contains_offset in contained)
        (λ position list fits z.
          read_elements-At o.bytes (to_le_bytes w) w (λ offset. read_le w offset o.bytes)
            (λ n. n < 256 ^ w) same (λ place n small. read_le-At o.bytes w place n small) position
            list fits z)
        (AllIn→InOption (λ n. n < 256 ^ w) l valid) h

  integers :
      (half w : ℕ) (l : Option (List ℤ))
      → ((z : ℤ) → length (signed_bytes half w z) ≡ w)
      → 2 * half ≤ 256 ^ w
      → AllIn (IsSigned half) l
      → StoredList o.bytes lo offset (list_of (signed_bytes half w) l)
      → at_list
          (get_offset_length o offset false)
          (read_elements (λ offset. read_signed half w offset o.bytes) w)
        ≡ ok l
  integers half w l same fits valid h =
      at_list-StoredList o lo positive (signed_bytes half w)
        (read_elements (λ offset. read_signed half w offset o.bytes) w) (All (IsSigned half)) offset
        false l (unfold contains_offset in contained)
        (λ position list signed z.
          read_elements-At o.bytes (signed_bytes half w) w
            (λ offset. read_signed half w offset o.bytes) (IsSigned half) same
            (λ place n inside. read_signed-At o.bytes half w place n inside fits) position list
            signed z)
        (AllIn→InOption (IsSigned half) l valid) h

  bytes_at :
      (l : Option Bytes)
      → StoredList o.bytes lo offset (list_of byte_bytes l)
      → read_string_at o offset false ≡ ok l
  bytes_at l h =
      read_string_at-StoredList o lo positive offset false l (unfold contains_offset in contained) h

  slice_at :
      (l : Option Bytes)
      → StoredList o.bytes lo offset (list_of byte_bytes l)
      → at_list (get_offset_length o offset false) (λ offset length. slice offset length o.bytes)
        ≡ ok l
  slice_at l h = unfold read_string_at in bytes_at l h

  -- A value that stands at the offset of a property of its type is what is read from the property.
  pub read-Stored :
      (v : Value) → IsValid v → Stored o.bytes lo offset (form v) → read o (at (type_of v)) ≡ ok v
  unfolding read type_of form
  read-Stored (byte b) valid (in_place h) = unfold IsarObject.read_byte in rw (contained, h.0)
  read-Stored (int z) valid (in_place h) =
      unfold IsarObject.read_int in
      rw (contained, read_signed-At o.bytes (2 ^ 31) 4 offset z valid (omega arith) h)
  read-Stored (float b) valid (in_place h) =
      unfold IsarObject.read_float in rw (contained, read_le-At o.bytes 4 offset b valid h)
  read-Stored (long z) valid (in_place h) =
      unfold IsarObject.read_long in
      rw (contained, read_signed-At o.bytes (2 ^ 63) 8 offset z valid (omega arith) h)
  read-Stored (double b) valid (in_place h) =
      unfold IsarObject.read_double in rw (contained, read_le-At o.bytes 8 offset b valid h)
  read-Stored (string s) valid (in_list h) = unfold IsarObject.read_string in rw (bytes_at s h)
  read-Stored (byte_list l) valid (in_list h) =
      unfold IsarObject.read_byte_list in rw (slice_at l h)
  read-Stored (int_list l) valid (in_list h) =
      unfold IsarObject.read_int_list in
      rw (integers (2 ^ 31) 4 l (λ z. unfold to_le_bytes in refl) (omega arith) valid h)
  read-Stored (float_list l) valid (in_list h) =
      unfold IsarObject.read_float_list in rw (words 4 l (λ n. unfold to_le_bytes in refl) valid h)
  read-Stored (long_list l) valid (in_list h) =
      unfold IsarObject.read_long_list in
      rw (integers (2 ^ 63) 8 l (λ z. unfold to_le_bytes in refl) (omega arith) valid h)
  read-Stored (double_list l) valid (in_list h) =
      unfold IsarObject.read_double_list in rw (words 8 l (λ n. unfold to_le_bytes in refl) valid h)
  read-Stored (string_list none) valid (null_strings h) =
      unfold IsarObject.read_string_list in
      rw (position-null o lo positive offset false (unfold contains_offset in contained) h)
  read-Stored (string_list (some l)) valid (in_table position header h) =
      unfold IsarObject.read_string_list in
      rw (
        position-Header o lo positive offset position (length l) false
            (unfold contains_offset in contained) header,
        read_strings-StoredTable o lo positive position l h,
      )
