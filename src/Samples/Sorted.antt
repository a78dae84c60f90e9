-- ===== src/Samples/Sorted.antt =====
-- A query sorted downwards by an int, distinct by the second letter of a name.
use isar_core.Prelude.{ℕ, ◌≡◌, refl, Ordering, is_le}
use isar_core.Prelude.{Bool, true, if◌then◌else◌, some, none, List, [], ◌∷◌, take, drop, get_elem?}
use mathlib.Core.List.{Perm}
use mathlib.Core.List.Perm
use isar_core.Prelude.Bytes.{from_le_bytes}
use isar_core.Error.{Result, ok, ◌>>=◌}
use isar_core.Object.DataType.{DataType}
use isar_core.Object.ObjectInfo.{Property}
use isar_core.Object.IsarObject.{IsarObject, read_int}
use isar_core.Object.IsarObject.Compare.{compare_property}
use isar_core.Query.Sort.{Sort, compare_objects, directed}
use isar_core.Query.Execute.{find_sorted}
use isar_core.Query.Execute.Window.{wanted, concatenated}
use isar_core.Query.Execute.Sorted.{
  InOrder, Sorts, NotAfter, without_duplicates, find_sorted-distinct,
}

abbrev age : Property
age = record { data_type = DataType.int; offset = 2 }

-- An object with an age and one more byte.
abbrev person : ℕ → ℕ → IsarObject
person years mark = record { bytes = 7 ∷ 0 ∷ years ∷ 0 ∷ 0 ∷ 0 ∷ mark ∷ []; static_size = 7 }

abbrev mark_of : IsarObject → ℕ
mark_of object = elim (get_elem? object.bytes 6) [ none ↦ 0 | some mark ↦ mark ]

-- A sorting by insertion.
insert :
    (IsarObject → IsarObject → Result Ordering)
    → IsarObject
    → List IsarObject
    → Result (List IsarObject)
insert cmp x [] = ok (x ∷ [])
insert cmp x (y ∷ ys) = do
  rest ← insert cmp x ys
  ord ← cmp x y
  ok (if is_le ord then x ∷ y ∷ ys else y ∷ rest)

insertion_sort :
    (IsarObject → IsarObject → Result Ordering) → List IsarObject → Result (List IsarObject)
unfolding insert
insertion_sort cmp [] = ok []
insertion_sort cmp (x ∷ xs) = do sorted ← insertion_sort cmp xs; insert cmp x sorted

abbrev downwards : List (Property × Sort)
downwards = (age, Sort.descending) ∷ []

abbrev everyone : IsarObject → Bool
everyone object = true

abbrev clauses : List (List (ℕ × IsarObject))
clauses = ((1, person 5 1) ∷ (2, person 9 1) ∷ []) ∷ ((2, person 9 1) ∷ (3, person 4 2) ∷ []) ∷ []

sorts : Sorts insertion_sort (compare_objects downwards) (wanted everyone [] (concatenated clauses))
unfolding insertion_sort compare_objects compare_property read_int from_le_bytes directed wanted
    concatenated
sorts = (
  person 9 1 ∷ person 5 1 ∷ person 4 2 ∷ [],
  refl,
  Perm.swap (person 5 1) (person 9 1) (person 4 2 ∷ []),
  (
    ((Ordering.lt, refl, refl), ((Ordering.lt, refl, refl), tt)),
    (((Ordering.lt, refl, refl), tt), (tt, tt)),
  ),
)

found :
    find_sorted insertion_sort downwards (some mark_of) 0 2 (λ object. ok true) clauses
    ≡ ok (person 9 1 ∷ person 4 2 ∷ [])
unfolding find_sorted insertion_sort compare_property read_int from_le_bytes
found = refl

find_sorted-distinct_example :
    (sorted : List IsarObject) × Perm sorted (wanted everyone [] (concatenated clauses))
    × InOrder (NotAfter downwards) sorted
    × (find_sorted insertion_sort downwards
          (some mark_of)
          0
          2
          (λ object. ok (everyone object))
          clauses
        ≡ ok (take 2 (drop 0 (without_duplicates mark_of sorted))))
find_sorted-distinct_example =
    find_sorted-distinct insertion_sort downwards mark_of 0 2 everyone clauses sorts
