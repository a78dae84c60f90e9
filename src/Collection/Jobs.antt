-- ===== src/Collection/Jobs.antt =====
-- src/collection.rs: deletion by index, links between objects, and the clearing of a collection. Each
-- operation is the job that runs in a transaction.
use isar_core.Prelude.{ℕ, suc, Bool, true, false, Option, none, some, List, [], ◌∷◌}
use isar_core.Prelude.Int.{ℤ}
use isar_core.Error.{Result, ok, ◌>>=◌, ◌>>◌, unwrap}
use isar_core.Lmdb.IntKey
use isar_core.Lmdb.IntKey.{IntKey, min_id, max_id, get_id}
use isar_core.Lmdb.ByteKey
use isar_core.Lmdb.Keys.{byte_key}
use isar_core.Lmdb.Cursor.{Cursor, Lmdb, move_to, delete_current}
use isar_core.Object.IsarObject.{IsarObject}
use isar_core.Index.Hashing.{Hashing, Unicode}
use isar_core.Index.Types.{Index}
use isar_core.Index.IndexKey.{IndexKey}
use isar_core.Index.Entries
use isar_core.Link
use isar_core.Link.{Link}
use isar_core.Query.Sort.{Sort}
use isar_core.Query.IdWhereClause
use isar_core.Query.IdWhereClause.Iter
use isar_core.Collection.{
  IsarCollection, get_links_and_backlinks, get_link_backlink, verify_index_key,
}
use isar_core.Collection.Store.{
  ChangeSet, Cursors, register_object_change, register_link_change, delete_internal,
}

module _ {Q : Type 0} (matches_wc_filter : Q → ℤ → IsarObject → Bool) (u : Unicode) (h : Hashing)
    (l : Lmdb) (rounds : ℕ) where
  unfoldable pub delete_by_index : IsarCollection → IndexKey → Cursors Q → Result (Bool × Cursors Q)
  unfolding verify_index_key move_to delete_internal IntKey.from_bytes get_id ByteKey.new
  delete_by_index col key cs = do
    verify_index_key col key
    index_result ← move_to l (ByteKey.new key.bytes) cs.index
    let cs' = record cs { index = index_result.1 }
    elim (index_result.0) [
      | none ↦ ok (false, cs')
      | some e ↦ (do
        id ← unwrap (IntKey.from_bytes (e.1))
        delete_internal matches_wc_filter u h l rounds col true (get_id id) cs')
    ]

  unfoldable pub link : IsarCollection → ℕ → Bool → ℤ → ℤ → Cursors Q → Result (Bool × Cursors Q)
  unfolding get_link_backlink register_link_change Link.create
  link col link_index backlink oid target_oid cs = do
    link ← get_link_backlink col link_index backlink
    created ← Link.create l link oid target_oid cs.data_cursor cs.links
    ok (
      created.0,
      record cs {
        data_cursor = created.1;
        links = created.2;
        change_set = register_link_change matches_wc_filter col link cs.change_set;
      },
    )

  unfoldable pub unlink : IsarCollection → ℕ → Bool → ℤ → ℤ → Cursors Q → Result (Bool × Cursors Q)
  unfolding get_link_backlink register_link_change Link.delete
  unlink col link_index backlink oid target_oid cs = do
    link ← get_link_backlink col link_index backlink
    deleted ← Link.delete l link oid target_oid cs.links
    ok (
      deleted.0,
      record cs {
        links = deleted.1;
        change_set = register_link_change matches_wc_filter col link cs.change_set;
      },
    )

  unfoldable pub unlink_all : IsarCollection → ℕ → Bool → ℤ → Cursors Q → Result (Cursors Q)
  unfolding get_link_backlink register_link_change Link.delete_all_for_object
  unlink_all col link_index backlink oid cs = do
    link ← get_link_backlink col link_index backlink
    links' ← Link.delete_all_for_object l rounds link oid cs.links
    ok (record cs {
      links = links';
      change_set = register_link_change matches_wc_filter col link cs.change_set;
    })

  unfoldable pub get_linked_objects :
      {S : Type 0}
      → IsarCollection
      → ℕ
      → Bool
      → ℤ
      → (S → IsarObject → Bool × S)
      → S
      → Cursors Q
      → Result (Bool × S × Cursors Q)
  unfolding get_link_backlink Link.iter
  get_linked_objects col link_index backlink oid callback s cs = do
    link ← get_link_backlink col link_index backlink
    answer ←
        Link.iter l rounds link oid (λ s object. ok (callback s object)) cs.data_cursor cs.links s
    ok (answer.0, answer.2.1, record cs { data_cursor = answer.2.0; links = answer.1 })

  unfoldable pub clear_indexes : List Index → Cursor → Result Cursor
  unfolding Entries.clear
  clear_indexes [] index = ok index
  clear_indexes (i ∷ indexes) index = do
    index' ← Entries.clear u h l rounds i index
    clear_indexes indexes index'

  unfoldable pub clear_links : List Link → Cursor → Result Cursor
  unfolding Link.clear
  clear_links [] links = ok links
  clear_links (link ∷ rest) links = do
    links' ← Link.clear l rounds link links
    clear_links rest links'

  -- The callback on each object: it is registered, deleted and counted.
  unfoldable pub clear_object :
      IsarCollection
      → Cursor
      → ℕ × Option (ChangeSet Q)
      → IntKey
      → IsarObject
      → Result (Bool × Cursor × (ℕ × Option (ChangeSet Q)))
  unfolding register_object_change delete_current get_id
  clear_object col cursor (counter, change_set) id object = do
    deleted ← delete_current l cursor
    ok (
      true,
      deleted,
      (suc counter, register_object_change matches_wc_filter col (get_id id) object change_set),
    )

  unfoldable pub clear : IsarCollection → Cursors Q → Result (ℕ × Cursors Q)
  unfolding clear_indexes clear_links get_links_and_backlinks clear_object IdWhereClause.new
      IdWhereClause.Iter.iter
  clear col cs = do
    index' ← clear_indexes col.indexes cs.index
    links' ← clear_links (get_links_and_backlinks col) cs.links
    cleared ←
        IdWhereClause.Iter.iter l rounds (clear_object col)
          (IdWhereClause.new col.id min_id max_id Sort.ascending) cs.data_cursor none
          (0, cs.change_set)
    ok (
      cleared.2.1.0,
      record {
        data_cursor = cleared.1;
        index = index';
        links = links';
        change_set = cleared.2.1.1;
      },
    )
