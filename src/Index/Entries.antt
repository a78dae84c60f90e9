-- ===== src/Index/Entries.antt =====
-- src/index/mod.rs: the entries of an object in an index are added and deleted. What the deletion of
-- another object does is a parameter, over the state `S` that the collection keeps.
use isar_core.Prelude.{ℕ, true, false, if◌then◌else◌, none, some, List, [], ◌∷◌}
use isar_core.Prelude.Int.{ℤ}
use isar_core.Prelude.Bytes.{Bytes}
use isar_core.Error.{Result, ok, err, ◌>>=◌, unique_violated}
use isar_core.Lmdb.IntKey
use isar_core.Lmdb.IntKey.{IntKey}
use isar_core.Lmdb.ByteKey
use isar_core.Lmdb.ByteKey.{ByteKey}
use isar_core.Lmdb.Keys.{byte_key}
use isar_core.Lmdb.Cursor.{Cursor, Lmdb, move_to_key_val, put, put_no_override, delete_current}
use isar_core.Object.IsarObject.{IsarObject}
use isar_core.Index.Hashing.{Hashing, Unicode}
use isar_core.Index.Types.{Index}
use isar_core.Index.IndexKey
use isar_core.Index.CreateKeys.{create_keys}
use isar_core.Query.Sort.{Sort}
use isar_core.Query.IndexWhereClause
use isar_core.Query.IndexWhereClause.Iter.{iter_ids}

module _ (l : Lmdb) {S : Type 0} (delete_existing : Cursor × S → ℤ → Result (Cursor × S)) where
  -- The state is the cursor of the index and the rest. The id that is deleted is the one of the new entry.
  unfoldable pub create_for_object_key : Index → IntKey → Bytes → Cursor × S → Result (Cursor × S)
  unfolding put put_no_override ByteKey.new IntKey.as_bytes IntKey.get_id
  create_for_object_key index id_key key (cursor, s) =
      if index.unique
      then (do
        answer ← put_no_override l (ByteKey.new key) (IntKey.as_bytes id_key) cursor
        if answer.0
            then ok (answer.1, s)
            else (if index.replace
                then delete_existing (answer.1, s) (IntKey.get_id id_key)
                else err unique_violated))
      else (do cursor' ← put l (ByteKey.new key) (IntKey.as_bytes id_key) cursor; ok (cursor', s))

  unfoldable pub create_for_object_keys :
      Index → IntKey → List Bytes → Cursor × S → Result (Cursor × S)
  unfolding create_for_object_key
  create_for_object_keys index id_key [] state = ok state
  create_for_object_keys index id_key (key ∷ keys) state = do
    state' ← create_for_object_key index id_key key state
    create_for_object_keys index id_key keys state'

module _ (u : Unicode) (h : Hashing) (l : Lmdb) where
  unfoldable pub create_for_object :
      {S : Type 0}
      → (Cursor × S → ℤ → Result (Cursor × S))
      → Index
      → ℤ
      → IsarObject
      → Cursor × S
      → Result (Cursor × S)
  unfolding create_keys create_for_object_keys IntKey.new
  create_for_object delete_existing index oid object state = do
    keys ← create_keys u h index object
    create_for_object_keys l delete_existing index (IntKey.new index.col_id oid) keys state

  unfoldable pub delete_keys : Bytes → List Bytes → Cursor → Result Cursor
  unfolding move_to_key_val delete_current ByteKey.new
  delete_keys oid_bytes [] cursor = ok cursor
  delete_keys oid_bytes (key ∷ keys) cursor = do
    entry ← move_to_key_val l (ByteKey.new key) oid_bytes cursor
    elim (entry.0) [
      | none ↦ delete_keys oid_bytes keys (entry.1)
      | some e ↦ (do deleted ← delete_current l (entry.1); delete_keys oid_bytes keys deleted)
    ]

  unfoldable pub delete_for_object : Index → ℤ → IsarObject → Cursor → Result Cursor
  unfolding create_keys delete_keys IntKey.new IntKey.as_bytes
  delete_for_object index oid object cursor = do
    keys ← create_keys u h index object
    delete_keys (IntKey.as_bytes (IntKey.new index.col_id oid)) keys cursor

  -- Both keys of the range are the bare prefix.
  unfoldable pub clear : ℕ → Index → Cursor → Result Cursor
  unfolding IndexWhereClause.new IndexKey.new iter_ids delete_current
  clear rounds index cursor = do
    wc ← IndexWhereClause.new (IndexKey.new index) (IndexKey.new index) false Sort.ascending
    cleared ←
        iter_ids l rounds wc
          (λ cursor s id. do deleted ← delete_current l cursor; ok (true, deleted, s)) cursor tt
    ok (cleared.1)
