-- ===== src/Lib.antt =====
-- Verification of isar-core, an object database over LMDB.
--
-- Objects are byte strings with a static part, one place per property, and a dynamic part for strings and
-- lists. `ObjectBuilder` writes them and `IsarObject` reads them. A collection stores them under an
-- `IntKey`, and its indexes store that key under a `ByteKey` that `IndexKey` builds from the indexed
-- properties, so that the order of LMDB is the order of the values. Queries walk over ranges of such keys
-- (where clauses), filter and sort what they find, and run inside a transaction. A link stores the ids of
-- its targets under the id of its source, with a backlink for each; `IsarCollection` keeps objects, index
-- entries and links in step through cursors. A schema describes the collections; an update of it keeps the
-- ids and offsets of the stored schema and gives new ones to what is new.
--
-- Files, and the code that they model:
--   Prelude, Prelude/*          lists, tests, machine integers, bit masks, bytes and their order
--   Error                       src/error.rs: the errors; a result is a value, an error or a panic
--   Lmdb/IntKey, Lmdb/ByteKey   src/lmdb/mod.rs: keys with their order
--   Object/DataType, Object/ObjectInfo
--                               src/object/data_type.rs, src/object/object_info.rs
--   Object/IsarObject           src/object/isar_object.rs: `from_bytes`, the `read_...` methods, `is_null`
--   Object/IsarObject/Compare   the same file: `compare_property`; Object/Float is the order of floats
--   Object/ObjectBuilder        src/object/object_builder.rs: the `write_...` methods and `finish`
--   Index/Types, Index/IndexKey, Index/CreateKeys
--                               src/index/mod.rs, src/index/index_key.rs: the keys of an object
--   Index/Hashing               what the indexes take from other crates
--   Query/Sort                  src/query/mod.rs: the comparator of `execute_sorted`
--   Query/Execute               src/query/mod.rs: `execute_raw`, the callbacks for distinct properties,
--                               offset and limit, `find_all_vec`
--   Query/IndexWhereClause      src/query/index_where_clause.rs: a range of keys, `try_exclude`
--   Query/IdWhereClause         src/query/id_where_clause.rs: a range of ids
--   Query/FastWildMatch         src/query/fast_wild_match.rs
--   Txn                         src/txn.rs, src/instance.rs: `begin_txn`, `read`, `write`, `commit`
--   Watch                       src/watch/change_set.rs: `register_change`
--   Lmdb/Errors                 src/lmdb/error.rs, src/error.rs: return codes of LMDB
--   Lmdb/Cursor, Lmdb/Cursor/Iter
--                               src/lmdb/cursor.rs: cursors and their iterations
--   Lmdb/Cursor/Documented      what LMDB documents of the functions that a cursor calls
--   Lmdb/Keys                   src/lmdb/mod.rs: the two kinds of keys as instances of `Key`
--   Link                        src/link.rs: links with their backlinks
--   Index/Entries               src/index/mod.rs: the entries of an object, `clear`
--   Query/IdWhereClause/Iter, Query/IndexWhereClause/Iter
--                               the `iter` methods of the where clauses
--   Query/Filter                src/query/filter.rs: the conditions and their construction
--   Query/Filter/Evaluate       the same file: `evaluate`
--   Query/Filter/LinkCond       the same file: `LinkCond::filter`
--   Collection                  src/collection.rs: the collection, its counter of ids, its accessors
--   Collection/Store            the same file: `get`, `put_internal`, `delete_internal`
--   Collection/Jobs             the same file: `link`, `unlink`, `clear` and the other jobs
--   Schema/CollectionSchema     src/schema/collection_schema.rs: `verify`; Schema/Names is about names
--   Schema/Update               the same file: `update_with_existing_collection`
--   Schema/Ids                  src/schema/mod.rs: `verify_schema`, `collect_ids`, the update of a schema
--   Schema/Build                both files: `get_isar_collection`, `build_collections`
--   Query/WhereClause           src/query/where_clause.rs
--   Query/QueryBuilder          src/query/query_builder.rs; src/query/mod.rs: `Query`, `matches_wc_filter`
--   Object/IsarObject/Hash      src/object/isar_object.rs: `hash_property`
--   Watch/Watchers              src/watch/isar_watchers.rs: adding and removing watchers
--   Samples                     runs on concrete data
-- The modules below a component hold its theorems.
--
-- Bytes are natural numbers, an `iN` is an integer in range, and a float is its bits. A slice out of range,
-- a failed assertion and an `unwrap` of nothing are `panic`. A method that changes its object returns the
-- new one. `fast_wild_match` runs on fuel: a round either moves on in the string or starts a later attempt,
-- and at most (length + 1) attempts of (length + 2) positions are made; its theorem shows that the fuel is
-- enough. The fuel of its inner loops is the length of the text they walk over.
--
-- A cursor holds the entries of its database and its place among them. `rounds` bounds the iterations of
-- cursors; running out of it is `panic`, and more rounds than the database has entries are enough, which
-- the theorems on iterations show. `get_id` draws from a stream of random numbers, and runs out only where
-- none of them is unused. A transaction's second cursor on the objects only reads, for filters: it is an
-- argument of `evaluate` rather than a field of `Cursors`.
--
-- Parameters: the functions of LMDB (the record `Lmdb`; the theorems on cursors and links take
-- `IsDocumented`, what lmdb.h documents of them, as a hypothesis, and `StoresPairs` for a database with
-- duplicates), the results of beginning and committing a transaction and of opening its cursors, the hash
-- functions, `to_lowercase`, `unicode_words` and `unique` (other crates), random numbers, the test whether a
-- watched query matches an object, and `sort_unstable_by` of the standard library, of which the theorem on
-- sorted queries takes as a hypothesis that it sorts the list by the comparator. `execute_raw` takes the
-- objects that a where clause yields. The other theorems assume nothing of the parameters.
--
-- Not modelled: the opening of cursors, databases and environments, the migration of stored objects and the
-- storing of schemas, counting and JSON export of queries, the channel over which watchers are registered,
-- `IsarTxn` around the jobs of a collection (Collection/Store and Collection/Jobs model what runs inside
-- `read` and `write`), JSON, the test utilities, and the bindings for Dart and of the C library.
pub mod Prelude
pub mod Error
pub mod Lmdb
pub mod Object
pub mod Index
pub mod Link
pub mod Collection
pub mod Schema
pub mod Query
pub mod Txn
pub mod Watch
mod Samples
