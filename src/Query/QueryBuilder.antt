-- ===== src/Query/QueryBuilder.antt =====
-- src/query/query_builder.rs and the struct of src/query/mod.rs: the building of a query, the test whether
-- an object meets it, and its run over the cursors of a transaction.
pub mod Clauses
use isar_core.Prelude.{
  ℕ, ◌-◌, ◌^◌, ◌&&◌, ◌==◌, Bool, true, false, not, any, if◌then◌else◌, Option, none, some, List, [],
  ◌∷◌, ◌++◌,
}
use isar_core.Prelude.Int.{ℤ}
use isar_core.Error.{Result, ok, err, panic, ◌>>=◌, illegal_arg}
use isar_core.Lmdb.IntKey.{min_id, max_id}
use isar_core.Lmdb.Cursor.{Lmdb}
use isar_core.Object.ObjectInfo.{Property}
use isar_core.Object.IsarObject.{IsarObject}
use isar_core.Index.Hashing.{Hashing, Unicode}
use isar_core.Index.IndexKey.{IndexKey}
use isar_core.Collection.{IsarCollection}
use isar_core.Query.Sort.{Sort}
use isar_core.Query.Filter.{Filter, static_cond}
use isar_core.Query.Filter.Evaluate.{evaluate}
use isar_core.Query.IdWhereClause
use isar_core.Query.IndexWhereClause
use isar_core.Query.IndexWhereClause.{try_exclude}
use isar_core.Query.WhereClause.{
  WhereClause, id_clause, index_clause, QueryCursors, QueryCallback, matches, iter,
}

pub record Query : Type 0 where
  pub where_clauses : List WhereClause
  pub where_clauses_overlapping : Bool
  pub filter : Option Filter
  pub sort : List (Property × Sort)
  pub distinct : List (Property × Bool)
  pub offset : ℕ
  pub limit : ℕ

pub record QueryBuilder : Type 0 where
  pub collection : IsarCollection
  pub where_clauses : Option (List WhereClause)
  pub filter : Option Filter
  pub sort : List (Property × Sort)
  pub distinct : List (Property × Bool)
  pub offset : ℕ
  pub limit : ℕ

unfoldable pub new : IsarCollection → QueryBuilder
new collection = record {
  collection = collection;
  where_clauses = none;
  filter = none;
  sort = [];
  distinct = [];
  offset = 0;
  limit = 2 ^ 64 - 1;
}

-- `Some(vec![])` where there are no clauses yet.
abbrev pub clauses_of : Option (List WhereClause) → List WhereClause
clauses_of none = []
clauses_of (some clauses) = clauses

unfoldable pub add_id_where_clause : QueryBuilder → ℤ → ℤ → Sort → QueryBuilder
unfolding IdWhereClause.new IdWhereClause.is_empty
add_id_where_clause builder lower_id upper_id sort =
    let clauses = clauses_of builder.where_clauses in
    let wc = IdWhereClause.new builder.collection.id lower_id upper_id sort in
    record builder {
      where_clauses =
          some (if not (IdWhereClause.is_empty wc) then clauses ++ id_clause wc ∷ [] else clauses);
    }

unfoldable pub add_index_where_clause :
    QueryBuilder → IndexKey → Bool → IndexKey → Bool → Bool → Sort → Result QueryBuilder
unfolding IndexWhereClause.new try_exclude IndexWhereClause.is_empty
add_index_where_clause builder lower_key include_lower upper_key include_upper skip_duplicates
      sort =
    if not (lower_key.index.col_id == builder.collection.id)
    then err (illegal_arg "Invalid IndexKey for this collection")
    else (do
      wc ← IndexWhereClause.new lower_key upper_key skip_duplicates sort
      let clauses = clauses_of builder.where_clauses
      let excluded = try_exclude include_lower include_upper wc
      ok (record builder {
        where_clauses = some (
            if excluded.1 && not (IndexWhereClause.is_empty (excluded.0))
            then clauses ++ index_clause (excluded.0) ∷ []
            else clauses);
      }))

unfoldable pub set_filter : QueryBuilder → Filter → QueryBuilder
set_filter builder filter = record builder { filter = some filter }

unfoldable pub add_sort : QueryBuilder → Property → Sort → QueryBuilder
add_sort builder p sort = record builder { sort = builder.sort ++ (p, sort) ∷ [] }

unfoldable pub add_distinct : QueryBuilder → Property → Bool → QueryBuilder
add_distinct builder p case_sensitive = record builder {
  distinct = builder.distinct ++ (p, case_sensitive) ∷ [];
}

unfoldable pub set_offset : QueryBuilder → ℕ → QueryBuilder
set_offset builder offset = record builder { offset = offset }

unfoldable pub set_limit : QueryBuilder → ℕ → QueryBuilder
set_limit builder limit = record builder { limit = limit }

-- `unique_by` the offset of the property, after the offsets seen.
unfoldable pub unique_by_offset : {A : Type 0} → List ℕ → List (Property × A) → List (Property × A)
unique_by_offset seen [] = []
unique_by_offset seen ((p, a) ∷ rest) =
    let known = unique_by_offset seen rest in
    let new = unique_by_offset (p.offset ∷ seen) rest in
    if any (λ offset. offset == p.offset) seen then known else (p, a) ∷ new

-- Without where clauses, all ids of the collection.
abbrev pub with_where_clauses : QueryBuilder → QueryBuilder
with_where_clauses builder = elim builder.where_clauses [
  | none ↦ add_id_where_clause builder min_id max_id Sort.ascending
  | some clauses ↦ builder
]

unfoldable pub build : QueryBuilder → Query
unfolding unique_by_offset add_id_where_clause
build builder = record {
  where_clauses = clauses_of (with_where_clauses builder).where_clauses;
  where_clauses_overlapping = true;
  filter = builder.filter;
  sort = unique_by_offset [] builder.sort;
  distinct = unique_by_offset [] builder.distinct;
  offset = builder.offset;
  limit = builder.limit;
}

module _ (u : Unicode) (h : Hashing) where
  -- `any` over the where clauses.
  unfoldable pub matches_any : List WhereClause → ℤ → IsarObject → Result Bool
  unfolding matches
  matches_any [] id object = ok false
  matches_any (wc ∷ clauses) id object = do
    wc_matches ← matches u h wc id object
    elim wc_matches [ true ↦ ok true | false ↦ matches_any clauses id object ]

module _ (u : Unicode) (h : Hashing) (l : Lmdb) (rounds : ℕ) where
  -- A filter that fails, as one over links does without cursors, is taken as met.
  abbrev pub filter_or_true : Option Filter → IsarObject → Result Bool
  filter_or_true none object = ok true
  filter_or_true (some filter) object = elim (evaluate u l rounds filter object none) [
    | ok answer ↦ ok (answer.0)
    | err e ↦ ok true
    | panic ↦ panic
  ]

  unfoldable pub matches_wc_filter : Query → ℤ → IsarObject → Result Bool
  unfolding matches_any evaluate
  matches_wc_filter query id object = do
    wc_matches ← matches_any u h query.where_clauses id object
    if not wc_matches then ok false else filter_or_true query.filter object
