-- ===== src/Link.antt =====
-- src/link.rs: links between objects. A link of an object is an entry of the links database, and so is its
-- backlink; both are kept in the same database, under different prefixes.
pub mod Paired
pub mod Delete
pub mod Create
use isar_core.Prelude.{
  ℕ, Bool, true, false, not, if◌then◌else◌, Option, none, some, List, [], ◌∷◌, ◌++◌,
}
use isar_core.Prelude.Int.{ℤ}
use isar_core.Prelude.Bytes.{Bytes}
use isar_core.Error.{Result, ok, err, ◌>>=◌, ◌>>◌, unwrap, IsarError, db_corrupted}
use isar_core.Lmdb.IntKey.{IntKey, min_id, max_id, as_bytes, get_id}
use isar_core.Lmdb.IntKey
use isar_core.Lmdb.Keys.{int_key}
use isar_core.Lmdb.Cursor.{KeyVal, Cursor, Lmdb, Key, move_to, move_to_key_val, put, delete_current}
use isar_core.Lmdb.Cursor.Iter.{CursorCallback, iter_dups, iter_between}
use isar_core.Object.IsarObject.{IsarObject, from_bytes}
use isar_core.Query.Execute.{Callback}

pub record Link : Type 0 where
  pub id : ℕ
  pub col_id : ℕ
  pub backlink_id : ℕ
  pub target_col_id : ℕ

unfoldable pub new : ℕ → ℕ → ℕ → ℕ → Link
new id backlink_id col_id target_col_id = record {
  id = id;
  col_id = col_id;
  backlink_id = backlink_id;
  target_col_id = target_col_id;
}

unfoldable pub to_backlink : Link → Link
to_backlink link = record {
  id = link.backlink_id;
  backlink_id = link.id;
  col_id = link.target_col_id;
  target_col_id = link.col_id;
}

unfoldable pub link_key : Link → ℤ → IntKey
link_key link oid = IntKey.new link.id oid

unfoldable pub link_target_key : Link → ℤ → IntKey
link_target_key link oid = IntKey.new link.target_col_id oid

unfoldable pub bl_key : Link → ℤ → IntKey
bl_key link oid = IntKey.new link.backlink_id oid

unfoldable pub bl_target_key : Link → ℤ → IntKey
bl_target_key link oid = IntKey.new link.col_id oid

abbrev pub is_none {ℓ} : {A : Type ℓ} → Option A → Bool
is_none none = true
is_none (some a) = false

module _ (l : Lmdb) where
  unfoldable pub iter_ids :
      {S : Type 0}
      → ℕ
      → Link
      → ℤ
      → (Cursor → S → IntKey → Result (Bool × Cursor × S))
      → Cursor
      → S
      → Result (Bool × Cursor × S)
  unfolding iter_dups link_key
  iter_ids rounds link oid callback links_cursor s =
      iter_dups l
        (λ links_cursor s key link_target_bytes. do
          target ← unwrap (IntKey.from_bytes link_target_bytes)
          callback links_cursor s target)
        rounds (link_key link oid) links_cursor s

  -- What is done with a target: its object is looked up, and given to the callback. The state has the
  -- cursor of the objects.
  unfoldable pub visit_target :
      {S : Type 0}
      → Callback S IsarObject
      → Cursor
      → Cursor × S
      → IntKey
      → Result (Bool × Cursor × (Cursor × S))
  unfolding move_to from_bytes
  visit_target callback links_cursor (data_cursor, s) link_target_key = do
    found ← move_to l link_target_key data_cursor
    elim (found.0) [
      | none ↦ err (db_corrupted "Target object does not exist")
      | some entry ↦ (do
        object ← from_bytes (entry.1)
        answer ← callback s object
        ok (answer.0, links_cursor, (found.1, answer.1)))
    ]

  unfoldable pub iter :
      {S : Type 0}
      → ℕ
      → Link
      → ℤ
      → Callback S IsarObject
      → Cursor
      → Cursor
      → S
      → Result (Bool × Cursor × (Cursor × S))
  unfolding iter_ids visit_target
  iter rounds link oid callback data_cursor links_cursor s =
      iter_ids rounds link oid (visit_target callback) links_cursor (data_cursor, s)

  unfoldable pub create_backlink : Link → ℤ → ℤ → Cursor → Result Cursor
  unfolding bl_key bl_target_key put
  create_backlink link oid target_oid links_cursor =
      put l (bl_key link target_oid) (as_bytes (bl_target_key link oid)) links_cursor

  unfoldable pub delete_backlink : Link → ℤ → ℤ → Cursor → Result Cursor
  unfolding bl_key bl_target_key move_to_key_val delete_current
  delete_backlink link oid target_oid links_cursor = do
    found ←
        move_to_key_val l (bl_key link target_oid) (as_bytes (bl_target_key link oid)) links_cursor
    if is_none (found.0)
        then err (db_corrupted "Backlink does not exist")
        else delete_current l (found.1)

  -- The answer, and the cursors of the objects and of the links.
  unfoldable pub create : Link → ℤ → ℤ → Cursor → Cursor → Result (Bool × Cursor × Cursor)
  unfolding link_key link_target_key move_to put create_backlink
  create link oid target_oid data_cursor links_cursor = do
    source ← move_to l (IntKey.new link.col_id oid) data_cursor
    if is_none (source.0) then ok (false, source.1, links_cursor) else (do
      target ← move_to l (IntKey.new link.target_col_id target_oid) (source.1)
      if is_none (target.0) then ok (false, target.1, links_cursor) else (do
        linked ← put l (link_key link oid) (as_bytes (link_target_key link target_oid)) links_cursor
        backlinked ← create_backlink link oid target_oid linked
        ok (true, target.1, backlinked)))

  unfoldable pub delete : Link → ℤ → ℤ → Cursor → Result (Bool × Cursor)
  unfolding link_key link_target_key move_to_key_val delete_current delete_backlink
  delete link oid target_oid links_cursor = do
    found ←
        move_to_key_val l (link_key link oid) (as_bytes (link_target_key link target_oid))
          links_cursor
    if is_none (found.0) then ok (false, found.1) else (do
      unlinked ← delete_current l (found.1)
      unbacklinked ← delete_backlink link oid target_oid unlinked
      ok (true, unbacklinked))

  -- The callback that pushes the id of a target and deletes its entry.
  unfoldable pub take_target : Cursor → List ℤ → IntKey → Result (Bool × Cursor × List ℤ)
  unfolding delete_current
  take_target links_cursor target_oids link_target_key = do
    deleted ← delete_current l links_cursor
    ok (true, deleted, target_oids ++ get_id link_target_key ∷ [])

  unfoldable pub delete_backlinks : Link → ℤ → List ℤ → Cursor → Result Cursor
  unfolding delete_backlink
  delete_backlinks link oid [] links_cursor = ok links_cursor
  delete_backlinks link oid (target_oid ∷ target_oids) links_cursor = do
    deleted ← delete_backlink link oid target_oid links_cursor
    delete_backlinks link oid target_oids deleted

  unfoldable pub delete_all_for_object : ℕ → Link → ℤ → Cursor → Result Cursor
  unfolding iter_ids take_target delete_backlinks
  delete_all_for_object rounds link oid links_cursor = do
    taken ← iter_ids rounds link oid take_target links_cursor []
    delete_backlinks link oid (taken.2) (taken.1)

  abbrev delete_entry : CursorCallback (Unit {0})
  delete_entry cursor s key val = do deleted ← delete_current l cursor; ok (true, deleted, s)

  unfoldable pub clear_internal : ℕ → IntKey → IntKey → Cursor → Result Cursor
  unfolding iter_between delete_current
  clear_internal rounds min_key max_key links_cursor = do
    cleared ← iter_between l delete_entry rounds min_key max_key false true links_cursor tt
    ok (cleared.1)

  unfoldable pub clear : ℕ → Link → Cursor → Result Cursor
  unfolding link_key bl_key clear_internal
  clear rounds link links_cursor = do
    cleared ← clear_internal rounds (link_key link min_id) (link_key link max_id) links_cursor
    clear_internal rounds (bl_key link min_id) (bl_key link max_id) cleared
