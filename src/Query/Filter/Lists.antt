-- ===== src/Query/Filter/Lists.antt =====
-- The conditions on the elements of lists.
use isar_core.Prelude.{ℕ, ◌≡◌, refl, ◌⊎◌, inl, inr, arith}
use isar_core.Prelude.{Bool, true, false, ◌==◌, Option, Bool-cases}
use isar_core.Prelude.Int.{ℤ}
use isar_core.Prelude.Bytes.{Bytes}
use isar_core.Error.{ok, panic}
use isar_core.Lmdb.Cursor.{Lmdb}
use isar_core.Object.DataType.{DataType, is_type, ordinal}
use isar_core.Object.ObjectInfo.{Property}
use isar_core.Object.IsarObject.{
  IsarObject, read_byte_list, read_int_list, read_long_list, read_string_list,
}
use isar_core.Index.Hashing.{Unicode}
use isar_core.Query.Filter.{
  Filter, supported, byte_list_contains_filter, int_list_contains_filter, long_list_contains_filter,
  string_filter, string_list_contains,
}
use isar_core.Query.Filter.Evaluate.{FilterCursors, evaluate}

supported-ok :
    (t : DataType) (p : Property) (f filter : Filter)
    → supported t p f ≡ ok filter
    → (is_type p.data_type t ≡ true) × (f ≡ filter)
unfolding supported
supported-ok t p f filter h = elim (Bool-cases (is_type p.data_type t)) [
  | inl yes_type ↦ (yes_type, ground (arith, h, yes_type))
  | inr no_type ↦ ground (arith, h, no_type)
]

-- A property of the type of elements is none of the type of lists.
is_type-list :
    (t list : DataType) (p : Property)
    → (ordinal t == ordinal list) ≡ false
    → is_type p.data_type t ≡ true
    → is_type p.data_type list ≡ false
unfolding is_type
is_type-list t list p h e = ground (arith, h, e)

-- No condition on the elements of a list that can be constructed can be evaluated: the constructors demand
-- the type of the elements, and the reader of the list demands that of the list, so that the evaluation
-- panics on every object.
pub list_contains_panics :
    (u : Unicode) (l : Lmdb) (rounds : ℕ) (object : IsarObject) (cursors : Option FilterCursors)
    (p : Property) (filter : Filter) (byte : ℕ) (int : ℤ) (string : Option Bytes)
    (case_sensitive : Bool)
    → ((byte_list_contains_filter p byte ≡ ok filter)
        ⊎ ((int_list_contains_filter p int ≡ ok filter)
            ⊎ ((long_list_contains_filter p int ≡ ok filter)
                ⊎ (string_filter u string_list_contains p string case_sensitive ≡ ok filter))))
    → evaluate u l rounds filter object cursors ≡ panic
unfolding byte_list_contains_filter int_list_contains_filter long_list_contains_filter string_filter
    evaluate read_byte_list read_int_list read_long_list read_string_list ordinal
list_contains_panics u l rounds object cursors p filter byte int string case_sensitive (inl h) =
    let (e, f) = supported-ok DataType.byte p _ filter h in
    rw (← f, is_type-list DataType.byte DataType.byte_list p refl e) refl
list_contains_panics u l rounds object cursors p filter byte int string case_sensitive
      (inr (inl h)) =
    let (e, f) = supported-ok DataType.int p _ filter h in
    rw (← f, is_type-list DataType.int DataType.int_list p refl e) refl
list_contains_panics u l rounds object cursors p filter byte int string case_sensitive
      (inr (inr (inl h))) =
    let (e, f) = supported-ok DataType.long p _ filter h in
    rw (← f, is_type-list DataType.long DataType.long_list p refl e) refl
list_contains_panics u l rounds object cursors p filter byte int string case_sensitive
      (inr (inr (inr h))) =
    let (e, f) = supported-ok DataType.string p _ filter h in
    rw (← f, is_type-list DataType.string DataType.string_list p refl e) refl
