-- ===== src/Lmdb/Cursor/Documented.antt =====
-- What the documentation of LMDB says of `mdb_cursor_get`, `mdb_cursor_put` and `mdb_cursor_del`, for
-- cursors that have a place, and a database in which reads find no fault and writes find room.
use isar_core.Prelude.{
  ◌≡◌, Bool, true, false, ◌&&◌, ◌||◌, not, if◌then◌else◌, Option, none, some, List, [], ◌∷◌, any,
  is_eq, is_le, Ordering,
}
use isar_core.Prelude.Bytes.{Bytes, compare_bytes}
use isar_core.Lmdb.Errors.{mdb_success, mdb_notfound}
use isar_core.Lmdb.Cursor.{
  KeyVal, Position, CursorOp, Lmdb, mdb_set_key, mdb_get_both, mdb_set_range, mdb_next,
  mdb_next_dup, mdb_next_nodup, mdb_prev, mdb_prev_nodup, mdb_last,
}

abbrev pub same_bytes : Bytes → Bytes → Bool
same_bytes a b = is_eq (compare_bytes a b)

abbrev pub same_entry : KeyVal → KeyVal → Bool
same_entry a b = same_bytes (a.0) (b.0) && same_bytes (a.1) (b.1)

unfoldable pub rewind : List KeyVal → List KeyVal → List KeyVal
rewind [] after = after
rewind (e ∷ before) after = rewind before (e ∷ after)

-- All that the database holds.
unfoldable pub entries : Position → List KeyVal
unfolding rewind
entries p = rewind p.before p.after

unfoldable pub has : KeyVal → List KeyVal → Bool
has e es = any (same_entry e) es

unfoldable pub remove : KeyVal → List KeyVal → List KeyVal
remove e [] = []
remove e (x ∷ xs) = if same_entry e x then remove e xs else x ∷ remove e xs

abbrev pub place : List KeyVal → List KeyVal → Position
place before after = record { before = before; after = after; deleted = none }

-- The first entry from here on that passes a test.
unfoldable pub seek : (KeyVal → Bool) → List KeyVal → List KeyVal → Option (KeyVal × Position)
seek test before [] = none
seek test before (e ∷ es) =
    if test e then some (e, place before (e ∷ es)) else seek test (e ∷ before) es

-- The last entry before here that passes a test.
unfoldable pub seek_back : (KeyVal → Bool) → List KeyVal → List KeyVal → Option (KeyVal × Position)
seek_back test [] after = none
seek_back test (e ∷ es) after =
    if test e then some (e, place es (e ∷ after)) else seek_back test es (e ∷ after)

-- The entry behind the current one. Behind a deleted entry it is the one that took its place.
unfoldable pub advance : (Bytes → KeyVal → Bool) → Position → Option (KeyVal × Position)
unfolding seek
advance test p = elim (p.deleted) [
  | some key ↦ seek (test key) p.before p.after
  | none ↦ elim (p.after) [ [] ↦ none | e ∷ es ↦ seek (test (e.0)) (e ∷ p.before) es ]
]

-- The last entry with a key before that of the current one.
unfoldable pub prev_nodup : Position → Option (KeyVal × Position)
unfolding seek_back
prev_nodup p = elim (p.after) [
  | [] ↦ seek_back (λ e. true) p.before []
  | e ∷ es ↦ seek_back (λ x. not (same_bytes (e.0) (x.0))) p.before (e ∷ es)
]

-- The only place to look at is the next one.
unfoldable pub next_dup : Position → Option (KeyVal × Position)
next_dup p = elim (p.deleted) [
  | some key ↦ elim (p.after) [
    | [] ↦ none
    | x ∷ xs ↦ if same_bytes key (x.0) then some (x, place p.before (x ∷ xs)) else none
  ]
  | none ↦ elim (p.after) [
    | [] ↦ none
    | e ∷ es ↦ elim es [
      | [] ↦ none
      | x ∷ xs ↦ if same_bytes (e.0) (x.0) then some (x, place (e ∷ p.before) (x ∷ xs)) else none
    ]
  ]
]

-- An operation that is given what it looks for.
unfoldable pub is_asked : CursorOp → Option Bytes → Option Bytes → Bool
is_asked mdb_set_key (some key) val = true
is_asked mdb_set_range (some key) val = true
is_asked mdb_get_both (some key) (some val) = true
is_asked mdb_set_key none val = false
is_asked mdb_set_range none val = false
is_asked mdb_get_both none val = false
is_asked mdb_get_both (some key) none = false
is_asked _ key val = true

module _ (cmp : Bytes → Bytes → Ordering) where
  -- The entry that an operation finds, and the place it moves to.
  unfoldable pub step :
      CursorOp → Option Bytes → Option Bytes → Position → Option (KeyVal × Position)
  unfolding entries seek seek_back advance next_dup prev_nodup
  step mdb_set_key (some key) val p = seek (λ e. is_eq (cmp key (e.0))) [] (entries p)
  step mdb_get_both (some key) (some val) p = seek (same_entry (key, val)) [] (entries p)
  step mdb_set_range (some key) val p = seek (λ e. is_le (cmp key (e.0))) [] (entries p)
  step mdb_next key val p = advance (λ here e. true) p
  step mdb_next_nodup key val p = advance (λ here e. not (same_bytes here (e.0))) p
  step mdb_next_dup key val p = next_dup p
  step mdb_prev key val p = seek_back (λ e. true) p.before p.after
  step mdb_prev_nodup key val p = prev_nodup p
  step mdb_last key val p = seek_back (λ e. true) (rewind (entries p) []) []
  step _ key val p = none

  -- What the crate relies on. An operation that finds nothing leaves what the database holds.
  pub record IsDocumented (l : Lmdb) : Type 0 where
    pub found :
        (op : CursorOp) (key val : Option Bytes) (p p' : Position) (e : KeyVal)
        → step op key val p ≡ some (e, p')
        → l.mdb_cursor_get op key val p ≡ (mdb_success, e, p')
    pub missing :
        (op : CursorOp) (key val : Option Bytes) (p : Position)
        → is_asked op key val ≡ true
        → step op key val p ≡ none
        → (e : KeyVal) × (p' : Position) × (entries p' ≡ entries p)
          × (l.mdb_cursor_get op key val p ≡ (mdb_notfound, e, p'))
    pub removed :
        (before after : List KeyVal) (e : KeyVal)
        → l.mdb_cursor_del (place before (e ∷ after)) ≡ (
          mdb_success,
          record { before = remove e before; after = remove e after; deleted = some (e.0) },
        )

-- A put into a database with sorted duplicates adds the pair, unless it is there.
pub record StoresPairs (l : Lmdb) : Type 0 where
  pub added :
      (key val : Bytes) (p : Position)
      → (p' : Position) × (l.mdb_cursor_put key val false p ≡ (mdb_success, p'))
        × ((e : KeyVal) → has e (entries p') ≡ (same_entry e (key, val) || has e (entries p)))
