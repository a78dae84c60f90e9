-- ===== src/Schema/Build/Backlinks.antt =====
-- The backlinks of a collection that its schema makes.
use isar_core.Prelude.{ℕ, ◌≡◌, refl, Ordering}
use isar_core.Prelude.{Bool, true, false, if◌then◌else◌, Option, some, List, [], ◌∷◌, All}
use mathlib.Core.Path.{subst}
use Prim.Native.String.{String}
use isar_core.Prelude.Int.{ℤ}
use isar_core.Prelude.Bytes.{Bytes}
use isar_core.Error.{Result, ok, err, ◌>>=◌, unwrap, >>=-eq-ok, db_corrupted}
use isar_core.Lmdb.IntKey.Same.{key_bytes}
use isar_core.Lmdb.Keys.{int_key}
use isar_core.Lmdb.Cursor.{Cursor, Lmdb}
use isar_core.Lmdb.Cursor.Documented.{IsDocumented, entries, has}
use isar_core.Lmdb.Cursor.Writes.{move_to_key_val-none}
use isar_core.Link
use isar_core.Link.{Link, delete_backlink, bl_key, bl_target_key}
use isar_core.Schema.Names.{eq_string}
use isar_core.Schema.CollectionSchema.{LinkSchema}
use isar_core.Schema.Build.{backlinks_of}

ok_injective : (a b : List Link) → ok a ≡ ok b → a ≡ b
ok_injective a b h = cc

-- What `backlinks_of` makes has the collections of the link, not those of its backlink.
backlinks_of-col_id :
    (col_id : Option ℕ) (name : String) (c : ℕ) (links : List LinkSchema) (bs : List Link)
    → backlinks_of col_id name (some c) links ≡ ok bs
    → All (λ (b : Link). b.col_id ≡ c) bs
unfolding backlinks_of Link.new
backlinks_of-col_id col_id name c [] bs h =
    subst (λ (r : List Link). All (λ (b : Link). b.col_id ≡ c) r) (ok_injective [] bs h) tt
backlinks_of-col_id col_id name c (l ∷ links) bs h =
    by_target (eq_string l.target_col name) (λ r e. backlinks_of-col_id col_id name c links r e) h
  where
    all_of : List Link → Type 0
    all_of r = All (λ (b : Link). b.col_id ≡ c) r

    rest_of : Result (List Link)
    rest_of = backlinks_of col_id name (some c) links

    by_target :
        (t : Bool)
        → ((r : List Link) → rest_of ≡ ok r → all_of r)
        → (if t
            then (do
              backlink_id ← unwrap l.backlink_id
              id ← unwrap l.id
              c ← unwrap (some c)
              col ← unwrap col_id
              rest ← rest_of
              ok (Link.new backlink_id id c col ∷ rest))
            else rest_of)
          ≡ ok bs
        → all_of bs
    by_target false ih k = ih bs k
    by_target true ih k =
        let (backlink_id, e₁, k₁) = >>=-eq-ok (unwrap l.backlink_id) k in
        let (id, e₂, k₂) = >>=-eq-ok (unwrap l.id) k₁ in
        let (col, e₃, k₃) = >>=-eq-ok (unwrap col_id) k₂ in
        let (rest, e₄, k₄) = >>=-eq-ok rest_of k₃ in
        subst (λ (r : List Link). All (λ (b : Link). b.col_id ≡ c) r)
          (ok_injective (Link.new backlink_id id c col ∷ rest) bs k₄) (refl, ih rest e₄)

module _ (cmp : Bytes → Bytes → Ordering) (l : Lmdb) (doc : IsDocumented cmp l) where
  delete_backlink-missing :
      (b : Link) (oid target_oid : ℤ) (links_cursor : Cursor)
      → has
          (key_bytes b.backlink_id target_oid, key_bytes b.col_id oid)
          (entries links_cursor.cursor)
        ≡ false
      → delete_backlink l b oid target_oid links_cursor
        ≡ err (db_corrupted "Backlink does not exist")
  unfolding delete_backlink bl_key bl_target_key
  delete_backlink-missing b oid target_oid links_cursor h =
      let (p', same, moved) =
        move_to_key_val-none cmp l doc (bl_key b target_oid) (key_bytes b.col_id oid) links_cursor
          h in
      rw moved refl

  All-fail :
      (c : ℕ) (bs : List Link) (oid target_oid : ℤ) (links_cursor : Cursor)
      → ((id : ℕ)
          → has (key_bytes id oid, key_bytes c target_oid) (entries links_cursor.cursor) ≡ false)
      → All (λ (b : Link). b.col_id ≡ c) bs
      → All
          (λ (b : Link).
            delete_backlink l b target_oid oid links_cursor
            ≡ err (db_corrupted "Backlink does not exist"))
          bs
  All-fail c [] oid target_oid links_cursor h all = tt
  All-fail c (b ∷ bs) oid target_oid links_cursor h (e, all) = (
    delete_backlink-missing b target_oid oid links_cursor (rw e (h b.backlink_id)),
    All-fail c bs oid target_oid links_cursor h all,
  )

  -- With the backlinks that a schema makes of the links of another collection, the opposite entry of a link
  -- is never found: it is looked for under the collection that the link comes from, in place of the one that
  -- it leads to. So the deletion of a target of links fails, unless the source collection is itself linked
  -- with that id.
  pub backlinks_of-fail :
      (col_id : Option ℕ) (name : String) (c : ℕ) (links : List LinkSchema) (bs : List Link)
      (oid target_oid : ℤ) (links_cursor : Cursor)
      → backlinks_of col_id name (some c) links ≡ ok bs
      → ((id : ℕ)
          → has (key_bytes id oid, key_bytes c target_oid) (entries links_cursor.cursor) ≡ false)
      → All
          (λ (b : Link).
            delete_backlink l b target_oid oid links_cursor
            ≡ err (db_corrupted "Backlink does not exist"))
          bs
  backlinks_of-fail col_id name c links bs oid target_oid links_cursor h none_there =
      All-fail c bs oid target_oid links_cursor none_there
        (backlinks_of-col_id col_id name c links bs h)
