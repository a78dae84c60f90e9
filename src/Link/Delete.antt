-- ===== src/Link/Delete.antt =====
-- A link is deleted together with its backlink.
use isar_core.Prelude.{◌≡◌, refl, sym, ap, ◌∙◌, inl, inr, Ordering}
use isar_core.Prelude.{true, false, not, ◌&&◌, List, Bool-cases}
use isar_core.Prelude.Int.{ℤ, eqb_ℤ}
use isar_core.Prelude.Bytes.{Bytes}
use isar_core.Error.{ok}
use isar_core.Lmdb.IntKey.Same.{eqb-eq, IsId, key_bytes}
use isar_core.Lmdb.Cursor.{KeyVal, Cursor, Lmdb}
use isar_core.Lmdb.Cursor.Documented.{IsDocumented, entries, has, remove}
use isar_core.Lmdb.Cursor.Writes.{and_true, has-remove, move_to_key_val-none, delete_current-found}
use isar_core.Lmdb.Keys.{int_key}
use isar_core.Link.{
  Link, to_backlink, link_key, link_target_key, bl_key, bl_target_key, delete, delete_backlink,
}
use isar_core.Link.Paired.{
  IsLink, link_entry, bl_entry, linked, backlinked, IsPaired, is_pair, same-link_backlink,
  removed_both,
}

module _ (cmp : Bytes → Bytes → Ordering) (l : Lmdb) (doc : IsDocumented cmp l) (link : Link)
    (wf : IsLink link) (oid target_oid : ℤ) (vo : IsId oid) (vt : IsId target_oid)
    (links_cursor : Cursor) (w : links_cursor.write ≡ true) where
  abbrev es : List KeyVal
  es = entries links_cursor.cursor

  abbrev le : KeyVal
  le = link_entry link oid target_oid

  abbrev ble : KeyVal
  ble = bl_entry link oid target_oid

  -- The run of `delete_backlink` on a backlink that is there.
  delete_backlink-found :
      (c : Cursor)
      → c.write ≡ true
      → has ble (entries c.cursor) ≡ true
      → (after : Cursor) × (delete_backlink l link oid target_oid c ≡ ok after)
        × (entries after.cursor ≡ remove ble (entries c.cursor))
  unfolding delete_backlink bl_key bl_target_key
  delete_backlink-found c w h =
      let (found, p', moved, deleted, e) =
        delete_current-found cmp l doc (bl_key link target_oid) (key_bytes link.col_id oid) c w h in
      (record c { cursor = p' }, rw moved deleted, e)

  delete-found :
      linked link es oid target_oid ≡ true
      → backlinked link es oid target_oid ≡ true
      → (after : Cursor) × (delete l link oid target_oid links_cursor ≡ ok (true, after))
        × (entries after.cursor ≡ remove ble (remove le es))
  unfolding delete link_key link_target_key linked backlinked to_backlink
  delete-found h b =
      let (found, p', moved, deleted, e) =
        delete_current-found cmp l doc (link_key link oid) (key_bytes link.target_col_id target_oid)
          links_cursor w h in
      let (after, backlink, f) =
        delete_backlink-found (record links_cursor { cursor = p' }) w
          (ap (has ble) e
            ∙ has-remove ble le es
            ∙ ap (λ s. not s && has ble es)
                (same-link_backlink link wf oid target_oid oid target_oid vo vt vo vt)
            ∙ b) in
      (after, rw (moved, deleted, backlink) refl, f ∙ ap (remove ble) e)

  delete-missing :
      linked link es oid target_oid ≡ false
      → (after : Cursor) × (delete l link oid target_oid links_cursor ≡ ok (false, after))
        × (entries after.cursor ≡ es)
  unfolding delete link_key link_target_key linked
  delete-missing h =
      let (p', e, moved) =
        move_to_key_val-none cmp l doc (link_key link oid) (key_bytes link.target_col_id target_oid)
          links_cursor h in
      (record links_cursor { cursor = p' }, rw moved refl, e)

  absent_pair :
      (o t : ℤ)
      → linked link es oid target_oid ≡ false
      → linked link es o t ≡ (not (is_pair oid target_oid o t) && linked link es o t)
  absent_pair o t h = elim (Bool-cases (is_pair oid target_oid o t)) [
    | inr n ↦ rw n refl
    | inl y ↦
        let (eo, et) = and_true (eqb_ℤ oid o) (eqb_ℤ target_oid t) y in
        rw (y, ← eqb-eq oid o eo, ← eqb-eq target_oid t et) h
  ]

  -- Deleting a link, in a database where links and backlinks are paired, answers whether the link was there,
  -- does not fail, leaves them paired, and deletes this link and its backlink and no other.
  pub delete-IsPaired :
      IsPaired link es
      → (after : Cursor) × (delete l link oid target_oid links_cursor
          ≡ ok (linked link es oid target_oid, after))
        × IsPaired link (entries after.cursor)
        × ((o t : ℤ)
            → IsId o
            → IsId t
            → linked link (entries after.cursor) o t
              ≡ (not (is_pair oid target_oid o t) && linked link es o t))
  delete-IsPaired paired = elim (Bool-cases (linked link es oid target_oid)) [
    | inl h ↦
        let (after, eq, e) = delete-found h (sym (paired oid target_oid vo vt) ∙ h) in
        let both = λ (o t : ℤ) (v : IsId o) (w : IsId t).
          removed_both link wf oid target_oid o t vo vt v w es in
        (
          after,
          rw h eq,
          (λ o t v w. rw e (
              (both o t v w).0
              ∙ ap (λ b. not (is_pair oid target_oid o t) && b) (paired o t v w)
              ∙ sym ((both o t v w).1))),
          (λ o t v w. rw e ((both o t v w).0)),
        )
    | inr h ↦
        let (after, eq, e) = delete-missing h in
        (after, rw h eq, (λ o t v w. rw e (paired o t v w)), (λ o t v w. rw e (absent_pair o t h)))
  ]
