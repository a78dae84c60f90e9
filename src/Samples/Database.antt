-- ===== src/Samples/Database.antt =====
-- An LMDB whose cursors do what the documentation says, and links in it.
use isar_core.Prelude.{
  ◌≡◌, refl, ap, inl, inr, Bool, true, false, ◌&&◌, ◌||◌, if◌then◌else◌, Option, none, some, List,
  [], ◌∷◌, is_lt, is_eq, any, compare, Ordering, Bool-cases,
}
use isar_core.Prelude.Int.{ℤ}
use isar_core.Prelude.Bytes.{Bytes, from_le_bytes, then_compare}
use isar_core.Lmdb.Errors.{mdb_success, mdb_notfound, mdb_keyexist}
use isar_core.Lmdb.Cursor.{KeyVal, Position, Lmdb}
use isar_core.Lmdb.Cursor.Documented.{
  IsDocumented, StoresPairs, step, entries, rewind, has, remove, place, same_entry,
}
use isar_core.Lmdb.Cursor.Writes.{same_entry-eq}

-- The order of integer keys, and of the values of one key.
abbrev pub compare_ints : Bytes → Bytes → Ordering
compare_ints a b = compare (from_le_bytes a) (from_le_bytes b)

abbrev is_before : KeyVal → KeyVal → Bool
is_before a b = is_lt (then_compare (compare_ints (a.0) (b.0)) (compare_ints (a.1) (b.1)))

unfoldable insert : KeyVal → List KeyVal → List KeyVal
insert e [] = e ∷ []
insert e (x ∷ xs) = if is_before e x then e ∷ x ∷ xs else x ∷ insert e xs

abbrev answer : Position → Option (KeyVal × Position) → ℤ × KeyVal × Position
answer p none = (mdb_notfound, ([], []), p)
answer p (some (e, p')) = (mdb_success, e, p')

abbrev delete_here : Position → ℤ × Position
delete_here p = elim (p.after) [
  | [] ↦ (mdb_notfound, p)
  | e ∷ after ↦ (
    mdb_success,
    record { before = remove e p.before; after = remove e after; deleted = some (e.0) },
  )
]

unfoldable put_pair : KeyVal → Position → Position
unfolding has entries insert
put_pair e p = if has e (entries p) then p else place [] (insert e (entries p))

unfoldable pub documented : Lmdb
unfolding step remove put_pair entries
documented = record {
  mdb_cursor_get = λ op key val p. answer p (step compare_ints op key val p);
  mdb_cursor_put = λ key val no_overwrite p.
      if no_overwrite && any (λ x. is_eq (compare_ints key (x.0))) (entries p)
      then (mdb_keyexist, p)
      else (mdb_success, put_pair (key, val) p);
  mdb_cursor_del = delete_here;
  mdb_strerror = λ code. "unknown";
}

pub documented-IsDocumented : IsDocumented compare_ints documented
unfolding documented
documented-IsDocumented = record {
  found = λ op key val p p' e h. ap (answer p) h;
  missing = λ op key val p asked h. (([], []), p, refl, ap (answer p) h);
  removed = λ before after e. refl;
}

has-insert : (e x : KeyVal) (xs : List KeyVal) → has e (insert x xs) ≡ (same_entry e x || has e xs)
unfolding has insert
has-insert e x [] = refl
has-insert e x (y ∷ xs) = elim (Bool-cases (is_before x y)) [
  | inl h ↦ rw h refl
  | inr h ↦ rw (h, has-insert e x xs) (by_tests (same_entry e x) (same_entry e y) (has e xs))
]
  where
    by_tests : (a b c : Bool) → (b || (a || c)) ≡ (a || (b || c))
    by_tests true true c = refl
    by_tests true false c = refl
    by_tests false true c = refl
    by_tests false false c = refl

has-put_pair :
    (x : KeyVal) (p : Position) (e : KeyVal)
    → has e (entries (put_pair x p)) ≡ (same_entry e x || has e (entries p))
unfolding put_pair entries rewind
has-put_pair x p e = elim (Bool-cases (has x (entries p))) [
  | inr h ↦ rw h (has-insert e x (entries p))
  | inl h ↦ rw h (elim (Bool-cases (same_entry e x)) [
    | inr t ↦ rw t refl
    | inl t ↦ rw (t, same_entry-eq e x t) h
  ])
]

pub documented-StoresPairs : StoresPairs documented
unfolding documented
documented-StoresPairs = record {
  added = λ key val p. (put_pair (key, val) p, refl, has-put_pair (key, val) p);
}
