-- ===== src/Link/Create.antt =====
-- A link is created together with its backlink.
use isar_core.Prelude.{◌≡◌, refl, sym, ap, ◌∙◌, ◌⊎◌, inl, inr, Ordering, is_eq}
use isar_core.Prelude.{
  Bool, true, false, not, ◌&&◌, ◌||◌, Option, none, some, List, [], ◌∷◌, any, Bool-cases,
}
use isar_core.Prelude.Int.{ℤ}
use isar_core.Prelude.Bytes.{Bytes}
use isar_core.Error.{ok}
use isar_core.Lmdb.IntKey.{IntKey, as_bytes, from_bytes, get_prefix, get_id, verify_id}
use isar_core.Lmdb.IntKey
use isar_core.Lmdb.IntKey.Same.{IsId, key_bytes}
use isar_core.Lmdb.Cursor.{KeyVal, Cursor, Lmdb, move_to}
use isar_core.Lmdb.Cursor.Documented.{IsDocumented, StoresPairs, entries, has, same_entry}
use isar_core.Lmdb.Cursor.Writes.{and_true, put-has}
use isar_core.Lmdb.Keys.{int_key}
use isar_core.Link.{
  Link, to_backlink, link_key, link_target_key, bl_key, bl_target_key, create, create_backlink,
}
use isar_core.Lmdb.Cursor.{Key, mdb_set_key}
use isar_core.Lmdb.Cursor.Documented.{seek, rewind, step, place, is_asked}
use isar_core.Lmdb.Cursor.Reads.{op_get-found, op_get-missing}
use isar_core.Link.{is_none}
use isar_core.Link.Paired.{
  IsLink, link_entry, bl_entry, linked, backlinked, IsPaired, is_pair, same-link, same-backlink,
  same-link_backlink, same-backlink_link,
}

-- Whether a database has a key.
unfoldable pub has_key : (Bytes → Bytes → Ordering) → Bytes → List KeyVal → Bool
has_key cmp key es = any (λ e. is_eq (cmp key (e.0))) es

-- Whether both objects of a link are there.
abbrev pub both_exist : (Bytes → Bytes → Ordering) → Link → ℤ → ℤ → List KeyVal → Bool
both_exist cmp link oid target_oid objects =
    has_key cmp (key_bytes link.col_id oid) objects
    && has_key cmp (key_bytes link.target_col_id target_oid) objects

seek-any :
    (test : KeyVal → Bool) (before es : List KeyVal)
    → ((seek test before es ≡ none) × (any test es ≡ false))
      ⊎ ((e : KeyVal) × (b : List KeyVal) × (a : List KeyVal) × (seek test before es
            ≡ some (e, place b (e ∷ a)))
          × (any test es ≡ true)
          × (rewind b (e ∷ a) ≡ rewind before es))
unfolding seek rewind
seek-any test before [] = inl (refl, refl)
seek-any test before (e ∷ es) = elim (Bool-cases (test e)) [
  | inl h ↦ inr (e, before, es, rw h refl, rw h refl, refl)
  | inr h ↦ rw h (seek-any test (e ∷ before) es)
]

module _ (cmp : Bytes → Bytes → Ordering) (l : Lmdb) (doc : IsDocumented cmp l) where
  -- A search for a key tells whether the database has it, and changes nothing.
  pub move_to-has_key :
      {K : Type 0} ⦃k : Key K⦄ (key : K) (c : Cursor)
      → (o : Option KeyVal) × (after : Cursor) × (move_to l key c ≡ ok (o, after))
        × (is_none o ≡ not (has_key cmp (k.as_bytes key) (entries c.cursor)))
        × (entries after.cursor ≡ entries c.cursor)
  unfolding move_to has_key entries rewind
  move_to-has_key ⦃k⦄ key c =
      let name = some (k.as_bytes key) in
      elim (seek-any (λ e. is_eq (cmp (k.as_bytes key) (e.0))) [] (entries c.cursor)) [
        | inl missing ↦
            let (seeks, absent) = missing in
            let (p', same, eq) =
              op_get-missing cmp l doc mdb_set_key name none c (unfold is_asked in refl)
                (unfold step in seeks) in
            (none, record c { cursor = p' }, eq, rw absent refl, same)
        | inr found ↦
            let (e, b, a, seeks, present, same) = found in
            (
              some e,
              record c { cursor = place b (e ∷ a) },
              op_get-found cmp l doc mdb_set_key name none c e (place b (e ∷ a))
                  (unfold step in seeks),
              rw present refl,
              same,
            )
      ]

module _ (cmp : Bytes → Bytes → Ordering) (l : Lmdb) (doc : IsDocumented cmp l)
    (stores : StoresPairs l) (link : Link) (wf : IsLink link) (oid target_oid : ℤ) (vo : IsId oid)
    (vt : IsId target_oid) (data_cursor links_cursor : Cursor) (w : links_cursor.write ≡ true) where
  abbrev objects : List KeyVal
  objects = entries data_cursor.cursor

  abbrev es : List KeyVal
  es = entries links_cursor.cursor

  -- The searches of `create` for the two objects.
  source_and_target :
      (o : Option KeyVal) × (o' : Option KeyVal) × (data₁ : Cursor) × (data₂ : Cursor) × (move_to l
          (IntKey.new link.col_id oid)
          data_cursor
        ≡ ok (o, data₁))
      × (move_to l (IntKey.new link.target_col_id target_oid) data₁ ≡ ok (o', data₂))
      × (is_none o ≡ not (has_key cmp (key_bytes link.col_id oid) objects))
      × (is_none o' ≡ not (has_key cmp (key_bytes link.target_col_id target_oid) objects))
  source_and_target =
      let (o, data₁, moved, n, same) =
        move_to-has_key cmp l doc (IntKey.new link.col_id oid) data_cursor in
      let (o', data₂, moved', n', same') =
        move_to-has_key cmp l doc (IntKey.new link.target_col_id target_oid) data₁ in
      (
        o,
        o',
        data₁,
        data₂,
        moved,
        moved',
        n,
        n' ∙ ap (λ xs. not (has_key cmp (key_bytes link.target_col_id target_oid) xs)) same,
      )

  -- The run of `create` when both objects are there.
  create-found :
      both_exist cmp link oid target_oid objects ≡ true
      → (data' : Cursor) × (after : Cursor) × (create l link oid target_oid data_cursor links_cursor
          ≡ ok (true, data', after))
        × ((e : KeyVal)
            → has e (entries after.cursor) ≡ (
                same_entry e (bl_entry link oid target_oid)
                || (same_entry e (link_entry link oid target_oid) || has e es)))
  unfolding create create_backlink link_key link_target_key bl_key bl_target_key
  create-found h =
      let (h₀, h₁) =
        and_true (has_key cmp (key_bytes link.col_id oid) objects)
          (has_key cmp (key_bytes link.target_col_id target_oid) objects) h in
      let (o, o', data₁, data₂, moved, moved', n, n') = source_and_target in
      let (p₁, put₁, law₁) =
        put-has cmp l doc (link_key link oid) (key_bytes link.target_col_id target_oid) links_cursor
          stores w in
      let (p₂, put₂, law₂) =
        put-has cmp l doc (bl_key link target_oid) (key_bytes link.col_id oid)
          (record links_cursor { cursor = p₁ }) stores w in
      (
        data₂,
        record links_cursor { cursor = p₂ },
        rw (moved, n, h₀, moved', n', h₁, put₁, put₂) refl,
        λ e. law₂ e ∙ ap (λ b. same_entry e (bl_entry link oid target_oid) || b) (law₁ e),
      )

  -- The run of `create` when an object is missing.
  create-missing :
      both_exist cmp link oid target_oid objects ≡ false
      → (data' : Cursor) × (create l link oid target_oid data_cursor links_cursor
          ≡ ok (false, data', links_cursor))
  unfolding create
  create-missing h =
      let (o, o', data₁, data₂, moved, moved', n, n') = source_and_target in
      elim (Bool-cases (has_key cmp (key_bytes link.col_id oid) objects)) [
        | inr gone ↦ (data₁, rw (moved, n, gone) refl)
        | inl there ↦
            let gone : has_key cmp (key_bytes link.target_col_id target_oid) objects ≡ false =
              sym
                (ap (λ b. b && has_key cmp (key_bytes link.target_col_id target_oid) objects) there)
              ∙ h in
            (data₂, rw (moved, n, there, moved', n', gone) refl)
      ]

  -- The links and backlinks after both entries are put.
  added_both :
      (after : List KeyVal)
      → ((e : KeyVal)
          → has e after ≡ (
              same_entry e (bl_entry link oid target_oid)
              || (same_entry e (link_entry link oid target_oid) || has e es)))
      → (o t : ℤ) → IsId o
      → IsId t
      → (linked link after o t ≡ (is_pair o t oid target_oid || linked link es o t))
        × (backlinked link after o t ≡ (is_pair o t oid target_oid || backlinked link es o t))
  unfolding linked backlinked to_backlink
  added_both after law o t v u = (
    law (link_entry link o t)
        ∙ rw
            (
              same-link_backlink link wf o t oid target_oid v u vo vt,
              same-link link wf o t oid target_oid v u vo vt,
            )
            refl,
    law (bl_entry link o t)
        ∙ rw
            (
              same-backlink link wf o t oid target_oid v u vo vt,
              same-backlink_link link wf o t oid target_oid v u vo vt,
            )
            refl,
  )

  -- Creating a link, in a database where links and backlinks are paired, answers whether both objects are
  -- there, leaves links and backlinks paired, and adds this link, if both objects are there, and no other.
  pub create-IsPaired :
      IsPaired link es
      → (data' : Cursor) × (after : Cursor) × (create l link oid target_oid data_cursor links_cursor
          ≡ ok (both_exist cmp link oid target_oid objects, data', after))
        × IsPaired link (entries after.cursor)
        × ((o t : ℤ)
            → IsId o
            → IsId t
            → linked link (entries after.cursor) o t ≡ (
                (both_exist cmp link oid target_oid objects && is_pair o t oid target_oid)
                || linked link es o t))
  create-IsPaired paired = elim (Bool-cases (both_exist cmp link oid target_oid objects)) [
    | inl h ↦
        let (data', after, eq, law) = create-found h in
        let both = added_both (entries after.cursor) law in
        (
          data',
          after,
          rw h eq,
          (λ o t v u.
              (both o t v u).0
              ∙ ap (λ b. is_pair o t oid target_oid || b) (paired o t v u)
              ∙ sym ((both o t v u).1)),
          (λ o t v u. rw h ((both o t v u).0)),
        )
    | inr h ↦
        let (data', eq) = create-missing h in
        (data', links_cursor, rw h eq, paired, (λ o t v u. rw h refl))
  ]
