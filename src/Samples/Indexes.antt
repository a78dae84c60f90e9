-- ===== src/Samples/Indexes.antt =====
-- Objects with an int and a name, in indexes over both.
use isar_core.Prelude.{ℕ, ◌+◌, ◌≡◌, refl, arith, Ordering}
use isar_core.Prelude.{true, false, none, some, [], ◌∷◌, ◌++◌, map, length}
use isar_core.Prelude.Int.{pos}
use isar_core.Prelude.Bytes.{Bytes, compare_bytes, from_le_bytes}
use isar_core.Error.{ok, ◌>>=◌}
use isar_core.Object.DataType
use isar_core.Object.ObjectInfo.{Property}
use isar_core.Object.IsarObject.{IsarObject, null_double, slice, read_int, read_string}
use isar_core.Object.IsarObject.Compare.{compare_floats}
use isar_core.Query.Sort.{Sort, compare_objects}
use isar_core.Query.IndexWhereClause.{IndexWhereClause, in_range, object_matches}
use isar_core.Query.IndexWhereClause.Range.{object_matches-any}
use isar_core.Index.Hashing.{Hashing, Unicode}
use isar_core.Index.Types.{Index, IndexType}
use isar_core.Index.IndexKey.{IndexKey, add_double, add_float}
use isar_core.Index.IndexKey.Floats.{compare-add_double, compare-add_float}
use isar_core.Index.CreateKeys.{create_keys, create_single_key}
use isar_core.Index.CreateKeys.Order.{int, hashed, create_single_key-compare_objects}
use isar_core.Prelude.{any}

abbrev hashing : Hashing
hashing = record {
  State = ℕ;
  default = 0;
  write_u8 = λ b n. b + n;
  write_i32 = λ z n. n;
  write_i64 = λ z n. n;
  write_usize = λ u n. u + n;
  write = λ bytes n. length bytes + n;
  finish = λ n. n;
  wyhash = λ bytes seed. length bytes + seed;
}

abbrev unicode : Unicode
unicode = record { to_lowercase = λ s. s; unicode_words = λ s. s ∷ []; unique = λ l. l }

abbrev age : Property
age = record { data_type = DataType.int; offset = 2 }

abbrev name : Property
name = record { data_type = DataType.string; offset = 6 }

abbrev index : Index
index = record {
  id = 3;
  col_id = 0;
  properties =
      record { property = age; index_type = IndexType.value; case_sensitive = none }
      ∷ record { property = name; index_type = IndexType.value; case_sensitive = some true }
      ∷ [];
  unique = false;
  replace = false;
}

-- 5 and "ab", and 5 and "b".
abbrev first : IsarObject
first = record {
  bytes = 14 ∷ 0 ∷ 5 ∷ 0 ∷ 0 ∷ 0 ∷ 14 ∷ 0 ∷ 0 ∷ 0 ∷ 2 ∷ 0 ∷ 0 ∷ 0 ∷ b'a' ∷ b'b' ∷ [];
  static_size = 14;
}

abbrev second : IsarObject
second = record {
  bytes = 14 ∷ 0 ∷ 5 ∷ 0 ∷ 0 ∷ 0 ∷ 14 ∷ 0 ∷ 0 ∷ 0 ∷ 1 ∷ 0 ∷ 0 ∷ 0 ∷ b'b' ∷ [];
  static_size = 14;
}

-- The index of a schema may hash a string first, and then order by an int.
abbrev by_name_and_age : Index
by_name_and_age = record index {
  properties =
      record { property = name; index_type = IndexType.hash; case_sensitive = some true }
      ∷ record { property = age; index_type = IndexType.value; case_sensitive = none }
      ∷ [];
}

-- 9 and "ab".
abbrev older : IsarObject
older = record {
  bytes = 14 ∷ 0 ∷ 9 ∷ 0 ∷ 0 ∷ 0 ∷ 14 ∷ 0 ∷ 0 ∷ 0 ∷ 2 ∷ 0 ∷ 0 ∷ 0 ∷ b'a' ∷ b'b' ∷ [];
  static_size = 14;
}

create_single_key-compare_objects_example :
    (key_a : Bytes) × (key_b : Bytes) × (create_single_key unicode hashing by_name_and_age first []
      ≡ ok key_a)
    × (create_single_key unicode hashing by_name_and_age older [] ≡ ok key_b)
    × (compare_objects
          (map (λ ip. (ip.property, Sort.ascending)) by_name_and_age.properties)
          first
          older
        ≡ ok (compare_bytes key_a key_b))
unfolding read_int read_string slice from_le_bytes
create_single_key-compare_objects_example =
    create_single_key-compare_objects unicode hashing by_name_and_age first older [] []
      (hashed (some (b'a' ∷ b'b' ∷ [])) true ∷ int (pos 5) ∷ [])
      (hashed (some (b'a' ∷ b'b' ∷ [])) true ∷ int (pos 9) ∷ [])
      ((refl, refl, refl, refl), ((refl, refl, omega arith), tt))
      ((refl, refl, refl, refl), ((refl, refl, omega arith), tt)) (refl, tt)

abbrev empty_key : IndexKey
empty_key = record { index = index; bytes = [] }

-- 1.0 is greater than NaN, and -1.0 is greater than -2.0.
compare-add_double_example :
    compare_bytes
      ((add_double empty_key 0x3ff0_0000_0000_0000).bytes ++ [])
      ((add_double empty_key null_double).bytes ++ [])
    ≡ Ordering.gt
unfolding compare_floats
compare-add_double_example =
    compare-add_double empty_key 0x3ff0_0000_0000_0000 null_double [] [] (omega arith) (omega arith)
      refl

compare-add_float_example :
    compare_bytes
      ((add_float empty_key 0xbf80_0000).bytes ++ [])
      ((add_float empty_key 0xc000_0000).bytes ++ [])
    ≡ Ordering.gt
unfolding compare_floats
compare-add_float_example =
    compare-add_float empty_key 0xbf80_0000 0xc000_0000 [] [] (omega arith) (omega arith) refl

abbrev range : IndexWhereClause
range = record {
  lower_key = 0 ∷ 3 ∷ [];
  upper_key = 0 ∷ 3 ∷ 128 ∷ 0 ∷ 0 ∷ 6 ∷ [];
  index = index;
  skip_duplicates = false;
  sort = Sort.ascending;
}

object_matches-any_example :
    object_matches unicode hashing range first
    ≡ (create_keys unicode hashing index first >>= λ keys. ok (any (in_range range) keys))
object_matches-any_example = object_matches-any unicode hashing range first
