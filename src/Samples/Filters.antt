-- ===== src/Samples/Filters.antt =====
-- Filters on an object.
use isar_core.Prelude.{◌^◌, ◌≡◌, refl, ◌&&◌, true, false, some, none, [], ◌∷◌, Bool, Option, inl}
use isar_core.Prelude.Int.{pos}
use isar_core.Prelude.Bytes.{Bytes}
use isar_core.Error.{ok, panic, ◌>>=◌}
use isar_core.Object.DataType.{DataType, is_type, ordinal}
use isar_core.Object.ObjectInfo.{Property}
use isar_core.Object.IsarObject
use isar_core.Object.IsarObject.{
  IsarObject, is_nan_f32, is_nan_f64, read_byte, read_double, read_float, read_string,
}
use isar_core.Index.Hashing.{Unicode}
use isar_core.Query.Filter.{
  Filter, supported, byte_between, double_between, float_between, string_between,
  string_starts_with, byte_list_contains, byte_list_contains_filter, or_cond, not_cond, cons, nil,
  cased,
}
use isar_core.Query.Filter.Evaluate.{FilterCursors, with_cursors, evaluate}
use isar_core.Query.Filter.Connectives.{holds, evaluate-holds, LeavesAnswer}
use isar_core.Query.Filter.Bounds.{
  nan_first_le, null_first_le, evaluate-nan_first_le, evaluate-null_first_le,
}
use isar_core.Query.Filter.Lists.{list_contains_panics}
use isar_core.Samples.Database.{documented}

abbrev ascii : Unicode
ascii = record { to_lowercase = λ s. s; unicode_words = λ s. s ∷ []; unique = λ words. words }

-- A byte 7 at offset 2.
abbrev object : IsarObject
object = record { bytes = 3 ∷ 0 ∷ 7 ∷ []; static_size = 3 }

abbrev level : Property
level = record { data_type = DataType.byte; offset = 2 }

abbrev weight : Property
weight = record { data_type = DataType.double; offset = 2 }

abbrev title : Property
title = record { data_type = DataType.string; offset = 2 }

abbrev low_or_not_high : Filter
low_or_not_high =
    or_cond (cons (byte_between level 0 3) (cons (not_cond (byte_between level 8 9)) nil))

abbrev leaf : Filter → Bool
leaf (byte_between p lower upper) = false
leaf filter = true

level_read : read_byte object level ≡ ok 7
unfolding read_byte is_type ordinal IsarObject.contains_property IsarObject.contains_offset
level_read = refl

low_or_not_high_leaves :
    LeavesAnswer ascii documented 9 object (λ cursors. Unit {0}) leaf low_or_not_high
unfolding LeavesAnswer evaluate read_byte is_type ordinal IsarObject.contains_property
low_or_not_high_leaves =
    ((λ cursors p. (cursors, tt, refl)), ((λ cursors p. (cursors, tt, refl)), tt))

evaluate-holds_example :
    (cursors' : Option FilterCursors) × Unit {0}
    × (evaluate ascii documented 9 low_or_not_high object none
        ≡ ok (holds leaf low_or_not_high, cursors'))
evaluate-holds_example =
    evaluate-holds ascii documented 9 object (λ cursors. Unit {0}) leaf low_or_not_high none
      low_or_not_high_leaves tt

evaluate-nan_first_le_example :
    (evaluate ascii documented 9 (double_between weight 0x7ff8_0000_0000_0000 0) object none
      ≡ with_cursors none (
          read_double object weight >>= λ val. ok (
            nan_first_le is_nan_f64 (2 ^ 63) 0x7ff8_0000_0000_0000 val
            && nan_first_le is_nan_f64 (2 ^ 63) val 0)))
    × (evaluate ascii documented 9 (float_between weight 0x7ff8_0000_0000_0000 0) object none
        ≡ with_cursors none (
            read_float object weight >>= λ val. ok (
              nan_first_le is_nan_f32 (2 ^ 31) 0x7ff8_0000_0000_0000 val
              && nan_first_le is_nan_f32 (2 ^ 31) val 0)))
evaluate-nan_first_le_example =
    evaluate-nan_first_le ascii documented 9 object weight 0x7ff8_0000_0000_0000 0 none

evaluate-null_first_le_example :
    ((lower : Bytes)
      → evaluate ascii documented 9
          (string_between title (some lower) (some (97 ∷ [])) true)
          object
          none
        ≡ with_cursors none (
            read_string object title >>= λ value. ok (
              null_first_le (some lower) (cased ascii true value)
              && null_first_le (cased ascii true value) (some (97 ∷ [])))))
    × ((bound : Bytes)
        → evaluate ascii documented 9 (string_between title none (some bound) true) object none
          ≡ evaluate ascii documented 9 (string_starts_with title (some []) true) object none)
evaluate-null_first_le_example =
    evaluate-null_first_le ascii documented 9 object title (some (97 ∷ [])) true none

level_filter : byte_list_contains_filter level 7 ≡ ok (byte_list_contains level 7)
unfolding byte_list_contains_filter supported is_type ordinal
level_filter = refl

list_contains_panics_example :
    evaluate ascii documented 9 (byte_list_contains level 7) object none ≡ panic
list_contains_panics_example =
    list_contains_panics ascii documented 9 object none level (byte_list_contains level 7) 7 (pos 0)
      none true (inl level_filter)
