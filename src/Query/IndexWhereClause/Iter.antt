-- ===== src/Query/IndexWhereClause/Iter.antt =====
-- src/query/index_where_clause.rs: the objects of a range of keys.
use isar_core.Prelude.{ℕ, Bool, true, false, if◌then◌else◌, Option, none, some, List, ◌∷◌, any}
use isar_core.Prelude.Int.{ℤ, eqb_ℤ}
use isar_core.Error.{Result, ok, err, ◌>>=◌, unwrap, db_corrupted}
use isar_core.Lmdb.IntKey
use isar_core.Lmdb.IntKey.{IntKey}
use isar_core.Lmdb.ByteKey
use isar_core.Lmdb.ByteKey.{ByteKey}
use isar_core.Lmdb.Keys.{int_key, byte_key}
use isar_core.Lmdb.Cursor.{Cursor, Lmdb, move_to}
use isar_core.Lmdb.Cursor.Iter.{iter_between}
use isar_core.Object.IsarObject.{IsarObject}
use isar_core.Object.IsarObject
use isar_core.Query.Sort.{Sort}
use isar_core.Query.IndexWhereClause.{IndexWhereClause}

abbrev pub is_ascending : Sort → Bool
is_ascending Sort.ascending = true
is_ascending Sort.descending = false

-- `result_ids.insert(id)`, where there are ids to keep: whether the id is new, and the ids.
abbrev pub insert_id : ℤ → Option (List ℤ) → Bool × Option (List ℤ)
insert_id id none = (true, none)
insert_id id (some ids) = if any (eqb_ℤ id) ids then (false, some ids) else (true, some (id ∷ ids))

-- A callback gets the cursors of objects and of the index.
abbrev pub ObjectCallback : Type 0 → Type 0
ObjectCallback S = Cursor → Cursor → S → IsarObject → Result (Bool × Cursor × Cursor × S)

module _ (l : Lmdb) (rounds : ℕ) {S : Type 0} where
  unfoldable pub iter_ids :
      IndexWhereClause
      → (Cursor → S → IntKey → Result (Bool × Cursor × S))
      → Cursor
      → S
      → Result (Bool × Cursor × S)
  unfolding iter_between ByteKey.new
  iter_ids wc callback index s =
      iter_between l
        (λ cursor s key id. do key' ← unwrap (IntKey.from_bytes id); callback cursor s key') rounds
        (ByteKey.new wc.lower_key) (ByteKey.new wc.upper_key) wc.skip_duplicates
        (is_ascending wc.sort) index s

  -- One entry of the index: an id that was seen is passed over, and an object that is missing is an error.
  unfoldable pub visit_id :
      ObjectCallback S
      → Cursor
      → Cursor × Option (List ℤ) × S
      → IntKey
      → Result (Bool × Cursor × (Cursor × Option (List ℤ) × S))
  unfolding move_to IsarObject.from_bytes IntKey.get_id
  visit_id callback index (data_cursor, result_ids, s) id =
      let (new_id, result_ids') = insert_id (IntKey.get_id id) result_ids in
      elim new_id [
        | false ↦ ok (true, index, (data_cursor, result_ids', s))
        | true ↦ (do
          found ← move_to l id data_cursor
          elim (found.0) [
            | none ↦ err (db_corrupted "Could not find object specified in index.")
            | some entry ↦ (do
              object ← IsarObject.from_bytes (entry.1)
              answer ← callback (found.1) index s object
              ok (answer.0, answer.2, (answer.1, result_ids', answer.3)))
          ])
      ]

module _ (l : Lmdb) (rounds : ℕ) {S : Type 0} where
  unfoldable pub iter :
      IndexWhereClause
      → ObjectCallback S
      → Cursor
      → Cursor
      → Option (List ℤ)
      → S
      → Result (Bool × Cursor × (Cursor × Option (List ℤ) × S))
  unfolding iter_ids visit_id
  iter wc callback data_cursor index result_ids s =
      iter_ids l rounds wc (visit_id l rounds callback) index (data_cursor, result_ids, s)
