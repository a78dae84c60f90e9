-- ===== src/Collection/Store.antt =====
-- src/collection.rs: the objects of a collection in the database. Each operation is the job that runs in a
-- write transaction, on the cursors of the transaction and its change set.
use isar_core.Prelude.{ℕ, Bool, true, false, if◌then◌else◌, Option, none, some, List, [], ◌∷◌, not}
use isar_core.Prelude.Int.{ℤ}
use isar_core.Error.{Result, ok, err, ◌>>=◌, ◌>>◌, invalid_object}
use isar_core.Lmdb.IntKey
use isar_core.Lmdb.IntKey.{IntKey, min_id, max_id, verify_id, get_id}
use isar_core.Lmdb.ByteKey
use isar_core.Lmdb.ByteKey.{ByteKey}
use isar_core.Lmdb.Keys.{int_key, byte_key}
use isar_core.Lmdb.Cursor.{Cursor, Lmdb, move_to, put, delete_current}
use isar_core.Object.ObjectInfo.{ObjectInfo}
use isar_core.Object.IsarObject
use isar_core.Object.IsarObject.{IsarObject, read_long}
use isar_core.Index.Hashing.{Hashing, Unicode}
use isar_core.Index.Types.{Index}
use isar_core.Index.IndexKey.{IndexKey}
use isar_core.Index.Entries.{create_for_object, delete_for_object}
use isar_core.Link.{Link, delete_all_for_object}
use isar_core.Watch.{IsarCollectionWatchers, register_change}
use isar_core.Collection.{
  IsarCollection, update_oid_counter, get_links_and_backlinks, get_oid_property, verify_index_key,
}

-- The watchers of each collection, and those that are to be notified.
pub record ChangeSet (Q : Type 0) : Type 0 where
  pub watchers : ℕ → IsarCollectionWatchers Q
  pub changed_watchers : List ℕ

-- The cursors of a transaction, and its change set.
pub record Cursors (Q : Type 0) : Type 0 where
  pub data_cursor : Cursor
  pub index : Cursor
  pub links : Cursor
  pub change_set : Option (ChangeSet Q)

-- The check of the layout of an object is commented out.
unfoldable pub verify_object : ObjectInfo → IsarObject → Bool
verify_object object_info object = true

module _ {Q : Type 0} (matches_wc_filter : Q → ℤ → IsarObject → Bool) where
  unfoldable pub register :
      ℕ → Option ℤ → Option IsarObject → Option (ChangeSet Q) → Option (ChangeSet Q)
  unfolding register_change
  register col_id oid object none = none
  register col_id oid object (some cs) = some (record cs {
    changed_watchers =
        register_change matches_wc_filter (cs.watchers col_id) oid object cs.changed_watchers;
  })

  unfoldable pub register_object_change :
      IsarCollection → ℤ → IsarObject → Option (ChangeSet Q) → Option (ChangeSet Q)
  unfolding register
  register_object_change col oid object change_set =
      register col.id (some oid) (some object) change_set

  unfoldable pub register_link_change :
      IsarCollection → Link → Option (ChangeSet Q) → Option (ChangeSet Q)
  unfolding register
  register_link_change col link change_set =
      register link.target_col_id none none (register col.id none none change_set)

module _ {Q : Type 0} (matches_wc_filter : Q → ℤ → IsarObject → Bool) (u : Unicode) (h : Hashing)
    (l : Lmdb) (rounds : ℕ) where
  unfoldable pub get : IsarCollection → ℤ → Cursors Q → Result (Option IsarObject × Cursors Q)
  unfolding verify_id move_to IntKey.new IsarObject.from_bytes
  get col oid cs = do
    verify_id oid
    found ← move_to l (IntKey.new col.id oid) cs.data_cursor
    let cs' = record cs { data_cursor = found.1 }
    elim (found.0) [
      | none ↦ ok (none, cs')
      | some entry ↦ (do object ← IsarObject.from_bytes (entry.1); ok (some object, cs'))
    ]

  unfoldable pub get_by_index :
      IsarCollection → IndexKey → Cursors Q → Result (Option IsarObject × Cursors Q)
  unfolding verify_index_key move_to ByteKey.new IsarObject.from_bytes
  get_by_index col key cs = do
    verify_index_key col key
    index_result ← move_to l (ByteKey.new key.bytes) cs.index
    elim (index_result.0) [
      | none ↦ ok (none, record cs { index = index_result.1 })
      | some e ↦ (do
        found ← move_to l (ByteKey.new (e.1)) cs.data_cursor
        let cs' = record cs { index = index_result.1; data_cursor = found.1 }
        elim (found.0) [
          | none ↦ ok (none, cs')
          | some entry ↦ (do object ← IsarObject.from_bytes (entry.1); ok (some object, cs'))
        ])
    ]

  unfoldable pub delete_index_entries : List Index → ℤ → IsarObject → Cursor → Result Cursor
  unfolding delete_for_object
  delete_index_entries [] oid object index = ok index
  delete_index_entries (i ∷ indexes) oid object index = do
    index' ← delete_for_object u h l i oid object index
    delete_index_entries indexes oid object index'

  unfoldable pub delete_link_entries : List Link → ℤ → Cursor → Result Cursor
  unfolding delete_all_for_object
  delete_link_entries [] oid links = ok links
  delete_link_entries (link ∷ rest) oid links = do
    links' ← delete_all_for_object l rounds link oid links
    delete_link_entries rest oid links'

  unfoldable pub delete_internal : IsarCollection → Bool → ℤ → Cursors Q → Result (Bool × Cursors Q)
  unfolding move_to IntKey.new IsarObject.from_bytes delete_index_entries delete_link_entries
      get_links_and_backlinks register_object_change delete_current
  delete_internal col delete_links oid cs = do
    found ← move_to l (IntKey.new col.id oid) cs.data_cursor
    elim (found.0) [
      | none ↦ ok (false, record cs { data_cursor = found.1 })
      | some entry ↦ (do
        object ← IsarObject.from_bytes (entry.1)
        index' ← delete_index_entries col.indexes oid object cs.index
        links' ←
            if delete_links
            then delete_link_entries (get_links_and_backlinks col) oid cs.links
            else ok cs.links
        data' ← delete_current l (found.1)
        ok (
          true,
          record {
            data_cursor = data';
            index = index';
            links = links';
            change_set = register_object_change matches_wc_filter col oid object cs.change_set;
          },
        ))
    ]

  -- The callback of `create_for_object`: the cursor of the index is in its hands.
  unfoldable pub delete_existing :
      IsarCollection → Cursor × Cursors Q → ℤ → Result (Cursor × Cursors Q)
  unfolding delete_internal
  delete_existing col (index, cs) oid = do
    deleted ← delete_internal col true oid (record cs { index = index })
    ok (deleted.1.index, deleted.1)

  unfoldable pub create_index_entries :
      IsarCollection
      → List Index
      → ℤ
      → IsarObject
      → Cursor × Cursors Q
      → Result (Cursor × Cursors Q)
  unfolding create_for_object delete_existing
  create_index_entries col [] oid object state = ok state
  create_index_entries col (i ∷ indexes) oid object state = do
    state' ← create_for_object u h l (delete_existing col) i oid object state
    create_index_entries col indexes oid object state'

  -- The collection comes back with its counter.
  unfoldable pub put_internal :
      IsarCollection → IsarObject → Cursors Q → Result (IsarCollection × Cursors Q)
  unfolding read_long get_oid_property verify_id delete_internal update_oid_counter verify_object
      create_index_entries put IntKey.new register_object_change
  put_internal col object cs = do
    oid ← read_long object (get_oid_property col)
    verify_id oid
    deleted ← delete_internal col false oid cs
    let col' = update_oid_counter oid col
    if not (verify_object col.object_info object) then err invalid_object else (do
      state ← create_index_entries col' col'.indexes oid object (deleted.1.index, deleted.1)
      data' ← put l (IntKey.new col.id oid) object.bytes state.1.data_cursor
      ok (
        col',
        record {
          data_cursor = data';
          index = state.0;
          links = state.1.links;
          change_set = register_object_change matches_wc_filter col oid object state.1.change_set;
        },
      ))
