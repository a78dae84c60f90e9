-- ===== src/Query/WhereClause.antt =====
-- src/query/where_clause.rs: a where clause, whether it matches, and the objects that it yields. The
-- cursors are those of `Cursors` in src/txn.rs that a query reads.
use isar_core.Prelude.{ℕ, Bool, Option, List}
use isar_core.Prelude.Int.{ℤ}
use isar_core.Error.{Result, ok, ◌>>=◌}
use isar_core.Lmdb.Cursor.{Cursor, Lmdb}
use isar_core.Object.IsarObject.{IsarObject}
use isar_core.Index.Hashing.{Hashing, Unicode}
use isar_core.Query.Filter.Evaluate.{FilterCursors}
use isar_core.Query.IdWhereClause.{IdWhereClause, id_matches}
use isar_core.Query.IdWhereClause.Iter as IdIter
use isar_core.Query.IndexWhereClause.{IndexWhereClause, object_matches}
use isar_core.Query.IndexWhereClause.Iter as IndexIter

pub data WhereClause : Type 0 where
  id_clause : IdWhereClause → WhereClause
  index_clause : IndexWhereClause → WhereClause

pub record QueryCursors : Type 0 where
  pub data_cursor : Cursor
  pub data2 : Cursor
  pub index : Cursor
  pub links : Cursor

module _ (u : Unicode) (h : Hashing) where
  unfoldable pub matches : WhereClause → ℤ → IsarObject → Result Bool
  unfolding id_matches object_matches
  matches (id_clause wc) id object = ok (id_matches wc id)
  matches (index_clause wc) id object = object_matches u h wc object

abbrev pub QueryCallback : Type 0 → Type 0
QueryCallback S = FilterCursors → S → IsarObject → Result (Bool × FilterCursors × S)

module _ (l : Lmdb) (rounds : ℕ) {S : Type 0} where
  -- The cursors, the ids and the state after it.
  unfoldable pub iter :
      WhereClause
      → QueryCallback S
      → QueryCursors
      → Option (List ℤ)
      → S
      → Result (Bool × QueryCursors × Option (List ℤ) × S)
  unfolding IdIter.iter IndexIter.iter
  iter (id_clause wc) callback cs result_ids s = do
    answer ←
        IdIter.iter l rounds
          (λ data_cursor (fs : FilterCursors × S) id object. do
            called ← callback (fs.0) (fs.1) object
            ok (called.0, data_cursor, (called.1, called.2)))
          wc cs.data_cursor result_ids ((cs.data2, cs.links), s)
    ok (
      answer.0,
      record cs { data_cursor = answer.1; data2 = answer.2.1.0.0; links = answer.2.1.0.1 },
      answer.2.0,
      answer.2.1.1,
    )
  iter (index_clause wc) callback cs result_ids s = do
    answer ←
        IndexIter.iter l rounds wc
          (λ data_cursor index (fs : FilterCursors × S) object. do
            called ← callback (fs.0) (fs.1) object
            ok (called.0, data_cursor, index, (called.1, called.2)))
          cs.data_cursor cs.index result_ids ((cs.data2, cs.links), s)
    ok (
      answer.0,
      record cs {
        data_cursor = answer.2.0;
        data2 = answer.2.2.0.0;
        index = answer.1;
        links = answer.2.2.0.1;
      },
      answer.2.1,
      answer.2.2.1,
    )
