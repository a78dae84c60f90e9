-- ===== src/Samples/Objects.antt =====
-- An object with an id, a name, a flag and a list of names, built and read back.
use isar_core.Prelude.{◌≡◌, refl, none, some, [], ◌∷◌, List, arith, List}
use isar_core.Prelude.Int.{pos, negsuc}
use isar_core.Prelude.Bytes.{Bytes, to_le_bytes}
use isar_core.Error.{ok, panic, ◌>>=◌, Result}
use isar_core.Object.DataType
use isar_core.Object.ObjectInfo
use isar_core.Object.ObjectInfo.{Property, ObjectInfo}
use isar_core.Object.IsarObject.{IsarObject}
use isar_core.Object.ObjectBuilder.{ObjectBuilder, new, finish, write_long, write_null, write_byte}
use isar_core.Object.ObjectBuilder.Value
use isar_core.Object.ObjectBuilder.Value.{Value}
use isar_core.Object.ObjectBuilder.WriteAll.{Fields, write_all}
use isar_core.Object.ObjectBuilder.RoundTrip.{ReadsBack, read-write_all}

abbrev id_property : Property
id_property = record { data_type = DataType.long; offset = 2 }

abbrev flag_property : Property
flag_property = record { data_type = DataType.byte; offset = 10 }

abbrev flag_fields : Fields
flag_fields = ("id", id_property) ∷ ("field", flag_property) ∷ []

abbrev flag_info : ObjectInfo
flag_info = record { id_property = id_property; properties = flag_fields; static_size = 11 }

static_size_of_fields : ObjectInfo.new id_property flag_fields ≡ flag_info
unfolding ObjectInfo.new
static_size_of_fields = refl

-- The first case of `test_write_null`.
abbrev null_flag : Result Bytes
null_flag = do
  ob ← write_long (new flag_info none) (pos 1)
  ob' ← write_null ob
  o ← finish ob'
  ok (o.bytes)

null_flag_bytes : null_flag ≡ ok (11 ∷ 0 ∷ 1 ∷ 0 ∷ 0 ∷ 0 ∷ 0 ∷ 0 ∷ 0 ∷ 0 ∷ 0 ∷ [])
unfolding new write_long write_null write_byte finish to_le_bytes
null_flag_bytes = refl

-- A value of another type than the next property has panics.
wrong_type : write_byte (new flag_info none) 1 ≡ panic
unfolding new write_byte
wrong_type = refl

abbrev name_property : Property
name_property = record { data_type = DataType.string; offset = 11 }

abbrev tags_property : Property
tags_property = record { data_type = DataType.string_list; offset = 19 }

abbrev info : ObjectInfo
info = record {
  id_property = id_property;
  properties =
      ("id", id_property)
      ∷ ("flag", flag_property)
      ∷ ("name", name_property)
      ∷ ("tags", tags_property)
      ∷ [];
  static_size = 27;
}

abbrev values : List Value
values =
    Value.long (negsuc 6)
    ∷ Value.byte 2
    ∷ Value.string (some (b'a' ∷ b'b' ∷ []))
    ∷ Value.string_list (some (some (b'x' ∷ []) ∷ none ∷ some [] ∷ []))
    ∷ []

read-write_all_example :
    (ob : ObjectBuilder) × (write_all (new info none) values ≡ ok ob)
    × (o : IsarObject) × (finish ob ≡ ok o)
    × ReadsBack o info.properties values
unfolding Value.type_of Value.form DataType.get_static_size
read-write_all_example =
    read-write_all info values (omega arith) (refl, (refl, (refl, (refl, tt)))) (omega arith)
      (omega arith) (omega arith) (omega arith)
