-- ===== src/Link/Paired.antt =====
-- The entries of links and backlinks, and what it means that they are paired.
use isar_core.Prelude.{◌^◌, ◌<◌, ◌≡◌, refl, ap, ◌∙◌, arith}
use isar_core.Prelude.{Bool, false, not, ◌&&◌, ◌==◌, List}
use isar_core.Prelude.Int.{ℤ, eqb_ℤ}
use isar_core.Lmdb.IntKey.Same.{IsId, key_bytes, same_key}
use isar_core.Lmdb.Cursor.{KeyVal}
use isar_core.Lmdb.Cursor.Documented.{has, remove, same_entry}
use isar_core.Lmdb.Cursor.Writes.{has-remove}
use isar_core.Lmdb.Keys.{int_key}
use isar_core.Link.{Link, to_backlink}

-- The ids of a link and of its collections are those of a u16, and the two directions have two prefixes.
pub record IsLink (link : Link) : Type 0 where
  pub id_bound : link.id < 2 ^ 16
  pub backlink_id_bound : link.backlink_id < 2 ^ 16
  pub col_id_bound : link.col_id < 2 ^ 16
  pub target_col_id_bound : link.target_col_id < 2 ^ 16
  pub distinct : (link.id == link.backlink_id) ≡ false

-- The entry of a link from an object to a target. Its backlink is the entry of the other direction.
abbrev pub link_entry : Link → ℤ → ℤ → KeyVal
link_entry link oid target_oid = (key_bytes link.id oid, key_bytes link.target_col_id target_oid)

abbrev pub bl_entry : Link → ℤ → ℤ → KeyVal
bl_entry link oid target_oid = (key_bytes link.backlink_id target_oid, key_bytes link.col_id oid)

unfoldable pub linked : Link → List KeyVal → ℤ → ℤ → Bool
linked link es oid target_oid = has (link_entry link oid target_oid) es

unfoldable pub backlinked : Link → List KeyVal → ℤ → ℤ → Bool
unfolding linked to_backlink
backlinked link es oid target_oid = linked (to_backlink link) es target_oid oid

-- Each link has its backlink, and each backlink its link.
abbrev pub IsPaired : Link → List KeyVal → Type 0
IsPaired link es =
    (oid target_oid : ℤ)
    → IsId oid
    → IsId target_oid
    → linked link es oid target_oid ≡ backlinked link es oid target_oid

abbrev pub is_pair : ℤ → ℤ → ℤ → ℤ → Bool
is_pair oid target_oid o t = eqb_ℤ oid o && eqb_ℤ target_oid t

module _ (link : Link) (wf : IsLink link) (oid target_oid o t : ℤ) (vo : IsId oid)
    (vt : IsId target_oid) (v : IsId o) (w : IsId t) where
  pub same-link :
      same_entry (link_entry link oid target_oid) (link_entry link o t) ≡ is_pair oid target_oid o t
  same-link =
      rw
        (
          same_key link.id link.id oid o wf.id_bound wf.id_bound vo v,
          same_key link.target_col_id link.target_col_id target_oid t wf.target_col_id_bound
              wf.target_col_id_bound vt w,
        )
        (ground arith)

  pub same-backlink :
      same_entry (bl_entry link oid target_oid) (bl_entry link o t) ≡ is_pair oid target_oid o t
  same-backlink =
      rw
        (
          same_key link.backlink_id link.backlink_id target_oid t wf.backlink_id_bound
              wf.backlink_id_bound vt w,
          same_key link.col_id link.col_id oid o wf.col_id_bound wf.col_id_bound vo v,
        )
        (ground arith)

  pub same-link_backlink : same_entry (link_entry link oid target_oid) (bl_entry link o t) ≡ false
  same-link_backlink =
      rw
        (same_key link.id link.backlink_id oid t wf.id_bound wf.backlink_id_bound vo w, wf.distinct)
        refl

  pub same-backlink_link : same_entry (bl_entry link oid target_oid) (link_entry link o t) ≡ false
  same-backlink_link =
      rw (same_key link.backlink_id link.id target_oid o wf.backlink_id_bound wf.id_bound vt v)
        (ground (arith, wf.distinct))

  -- Without an entry and its backlink, all other links and backlinks are there.
  pub removed_both :
      (es : List KeyVal)
      → (linked link
            (remove (bl_entry link oid target_oid) (remove (link_entry link oid target_oid) es))
            o
            t
          ≡ (not (is_pair oid target_oid o t) && linked link es o t))
        × (backlinked link
              (remove (bl_entry link oid target_oid) (remove (link_entry link oid target_oid) es))
              o
              t
            ≡ (not (is_pair oid target_oid o t) && backlinked link es o t))
  unfolding linked backlinked to_backlink
  removed_both es = (
    has-remove (link_entry link o t) (bl_entry link oid target_oid)
          (remove (link_entry link oid target_oid) es)
        ∙ rw same-backlink_link
            (has-remove (link_entry link o t) (link_entry link oid target_oid) es)
        ∙ ap (λ b. not b && has (link_entry link o t) es) same-link,
    has-remove (bl_entry link o t) (bl_entry link oid target_oid)
          (remove (link_entry link oid target_oid) es)
        ∙ ap (λ b. not b && has (bl_entry link o t) (remove (link_entry link oid target_oid) es))
            same-backlink
        ∙ ap (λ b. not (is_pair oid target_oid o t) && b)
            (has-remove (bl_entry link o t) (link_entry link oid target_oid) es
              ∙ ap (λ b. not b && has (bl_entry link o t) es) same-link_backlink),
  )
