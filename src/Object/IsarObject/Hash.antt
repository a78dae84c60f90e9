-- ===== src/Object/IsarObject/Hash.antt =====
-- src/object/isar_object.rs: `hash_property`. The hasher is a parameter, and floats are their bits.
use isar_core.Prelude.{if◌then◌else◌, none, some, length}
use isar_core.Prelude.Bytes.{to_le_bytes}
use isar_core.Error.{Result, ok, panic, ◌>>=◌}
use isar_core.Object.DataType.{DataType}
use isar_core.Object.ObjectInfo.{Property}
use isar_core.Object.IsarObject.{
  IsarObject, read_byte, read_int, read_float, read_long, read_double, read_string,
}
use isar_core.Index.Hashing.{Hashing, Unicode}
use isar_core.Prelude.{Bool}

module _ (u : Unicode) (h : Hashing) where
  -- `unimplemented!` is a panic. A string that is null leaves the hasher alone.
  hash_property : IsarObject → Property → Bool → h.State → Result h.State
  hash_property object p case_sensitive hasher = elim p.data_type [
    | DataType.byte ↦ (do value ← read_byte object p; ok (h.write_u8 value hasher))
    | DataType.int ↦ (do value ← read_int object p; ok (h.write_i32 value hasher))
    | DataType.float ↦ (do value ← read_float object p; ok (h.write (to_le_bytes 4 value) hasher))
    | DataType.long ↦ (do value ← read_long object p; ok (h.write_i64 value hasher))
    | DataType.double ↦ (do value ← read_double object p; ok (h.write (to_le_bytes 8 value) hasher))
    | DataType.string ↦ (do
      str ← read_string object p
      elim str [
        | none ↦ ok hasher
        | some s ↦ ok (
            h.write (if case_sensitive then s else u.to_lowercase s)
              (h.write_usize (length s) hasher))
      ])
    | _ ↦ panic
  ]
