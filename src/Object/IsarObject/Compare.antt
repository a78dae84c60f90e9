-- ===== src/Object/IsarObject/Compare.antt =====
-- src/object/isar_object.rs: the order of two objects by one property, null values first.
use isar_core.Prelude.{ℕ, ◌^◌, Bool, if◌then◌else◌, Option, none, some, compare, Ordering}
use isar_core.Prelude.Int.{compare_ℤ}
use isar_core.Prelude.Bytes.{Bytes, compare_bytes}
use isar_core.Error.{Result, ok, panic, ◌>>=◌}
use isar_core.Object.DataType.{DataType}
use isar_core.Object.ObjectInfo.{Property}
use isar_core.Object.Float.{float_gt}
use isar_core.Object.IsarObject.{IsarObject, is_nan_f32, is_nan_f64}
use isar_core.Object.IsarObject.{
  read_byte, read_int, read_float, read_long, read_double, read_string,
}

-- The branches of the two float types, over the test for NaN and the sign bit of the type.
unfoldable pub compare_floats : (ℕ → Bool) → ℕ → ℕ → ℕ → Ordering
compare_floats is_nan half f1 f2 =
    if is_nan f1
    then (if is_nan f2 then Ordering.eq else Ordering.lt)
    else (if is_nan f2
        then Ordering.gt
        else (if float_gt half f1 f2 then Ordering.gt else Ordering.lt))

unfoldable pub compare_strings : Option Bytes → Option Bytes → Ordering
compare_strings (some s1) (some s2) = compare_bytes s1 s2
compare_strings (some s1) none = Ordering.gt
compare_strings none (some s2) = Ordering.lt
compare_strings none none = Ordering.eq

-- `panic` is `unimplemented!()`, or that of a read.
unfoldable pub compare_property : IsarObject → IsarObject → Property → Result Ordering
unfolding compare_floats compare_strings
compare_property self other p = elim (p.data_type) [
  | DataType.byte ↦ (do a ← read_byte self p; b ← read_byte other p; ok (compare a b))
  | DataType.int ↦ (do a ← read_int self p; b ← read_int other p; ok (compare_ℤ a b))
  | DataType.float ↦ (do
    a ← read_float self p
    b ← read_float other p
    ok (compare_floats is_nan_f32 (2 ^ 31) a b))
  | DataType.long ↦ (do a ← read_long self p; b ← read_long other p; ok (compare_ℤ a b))
  | DataType.double ↦ (do
    a ← read_double self p
    b ← read_double other p
    ok (compare_floats is_nan_f64 (2 ^ 63) a b))
  | DataType.string ↦ (do a ← read_string self p; b ← read_string other p; ok (compare_strings a b))
  | _ ↦ panic
]
