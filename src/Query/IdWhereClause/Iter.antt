-- ===== src/Query/IdWhereClause/Iter.antt =====
-- src/query/id_where_clause.rs: the objects of a range of ids.
use isar_core.Prelude.{ℕ, Bool, true, false, Option, List}
use isar_core.Prelude.Int.{ℤ}
use isar_core.Error.{Result, ok, ◌>>=◌, unwrap}
use isar_core.Lmdb.IntKey
use isar_core.Lmdb.IntKey.{IntKey}
use isar_core.Lmdb.Keys.{int_key}
use isar_core.Lmdb.Cursor.{Cursor, Lmdb}
use isar_core.Lmdb.Cursor.Iter.{CursorCallback, iter_between}
use isar_core.Object.IsarObject.{IsarObject}
use isar_core.Object.IsarObject
use isar_core.Query.IdWhereClause.{IdWhereClause}
use isar_core.Query.IndexWhereClause.Iter.{is_ascending, insert_id}

module _ (l : Lmdb) (rounds : ℕ) {S : Type 0}
    (callback : Cursor → S → IntKey → IsarObject → Result (Bool × Cursor × S)) where
  -- One entry of the range: an id that was seen is passed over.
  unfoldable pub visit_entry : CursorCallback (Option (List ℤ) × S)
  unfolding IntKey.from_bytes IntKey.get_id IsarObject.from_bytes
  visit_entry cursor (result_ids, s) key val = do
    id ← unwrap (IntKey.from_bytes key)
    let (new_id, result_ids') = insert_id (IntKey.get_id id) result_ids
    elim new_id [
      | false ↦ ok (true, cursor, (result_ids', s))
      | true ↦ (do
        object ← IsarObject.from_bytes val
        answer ← callback cursor s id object
        ok (answer.0, answer.1, (result_ids', answer.2)))
    ]

  unfoldable pub iter :
      IdWhereClause → Cursor → Option (List ℤ) → S → Result (Bool × Cursor × (Option (List ℤ) × S))
  unfolding iter_between visit_entry IntKey.new
  iter wc data_cursor result_ids s =
      iter_between l visit_entry rounds (IntKey.new wc.prefix wc.lower)
        (IntKey.new wc.prefix wc.upper) false (is_ascending wc.sort) data_cursor (result_ids, s)
