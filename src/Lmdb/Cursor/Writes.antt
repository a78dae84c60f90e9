-- ===== src/Lmdb/Cursor/Writes.antt =====
-- What finding, adding and deleting a pair of key and value does to a database.
use isar_core.Prelude.{◌≡◌, refl, sym, ap, ◌∙◌, inl, inr, arith, Ordering, is_eq}
use isar_core.Prelude.{Bool, true, false, not, ◌&&◌, ◌||◌, none, some, List, [], ◌∷◌, Bool-cases}
use mathlib.Core.Bool.{true≢false}
use isar_core.Prelude.Bytes.{Bytes, compare_bytes}
use isar_core.Error.{ok, ◌>>=◌, ◌>>◌, assert}
use isar_core.Lmdb.Errors.{lmdb_result}
use isar_core.Lmdb.ByteKey.Order.{compare_bytes-eq}
use isar_core.Lmdb.Cursor.{
  KeyVal, Position, Cursor, Lmdb, Key, mdb_get_both, written, or_fail, put_internal, put,
  delete_current, move_to_key_val,
}
use isar_core.Lmdb.Cursor.Documented.{
  IsDocumented, StoresPairs, step, is_asked, entries, rewind, has, remove, seek, place, same_bytes,
  same_entry,
}
use isar_core.Lmdb.Cursor.Reads.{op_get-found, op_get-missing}

compare_bytes_refl : (a : Bytes) → compare_bytes a a ≡ Ordering.eq
unfolding compare_bytes
compare_bytes_refl [] = refl
compare_bytes_refl (x ∷ a) = ground (arith, compare_bytes_refl a)

pub same_bytes_refl : (a : Bytes) → same_bytes a a ≡ true
same_bytes_refl a = rw (compare_bytes_refl a) refl

pub same_bytes-eq : (a b : Bytes) → same_bytes a b ≡ true → a ≡ b
same_bytes-eq a b h = compare_bytes-eq a b (by_order (compare_bytes a b) h)
  where
    by_order : (o : Ordering) → is_eq o ≡ true → o ≡ Ordering.eq
    by_order Ordering.lt e = cc
    by_order Ordering.eq e = refl
    by_order Ordering.gt e = cc

pub and_true : (a b : Bool) → (a && b) ≡ true → (a ≡ true) × (b ≡ true)
and_true true true h = (refl, refl)
and_true true false h = cc
and_true false b h = cc

pub same_entry_refl : (e : KeyVal) → same_entry e e ≡ true
same_entry_refl e = rw (same_bytes_refl (e.0), same_bytes_refl (e.1)) refl

pub same_entry-eq : (e x : KeyVal) → same_entry e x ≡ true → e ≡ x
same_entry-eq (a, b) (c, d) h =
    let (h₀, h₁) = and_true (same_bytes a c) (same_bytes b d) h in
    rw (same_bytes-eq a c h₀, same_bytes-eq b d h₁) refl

remove-same :
    (e x : KeyVal) (es : List KeyVal) → same_entry e x ≡ true → remove e (x ∷ es) ≡ remove e es
unfolding remove
remove-same e x es h = rw h refl

remove-other :
    (e x : KeyVal) (es : List KeyVal) → same_entry e x ≡ false → remove e (x ∷ es) ≡ x ∷ remove e es
unfolding remove
remove-other e x es h = rw h refl

has-same : (x y : KeyVal) (es : List KeyVal) → same_entry x y ≡ true → has x (y ∷ es) ≡ true
unfolding has
has-same x y es h = rw h refl

has-other : (x y : KeyVal) (es : List KeyVal) → same_entry x y ≡ false → has x (y ∷ es) ≡ has x es
unfolding has
has-other x y es h = rw h refl

pub same_entry_sym : (e x : KeyVal) → same_entry e x ≡ true → same_entry x e ≡ true
same_entry_sym e x h = rw (same_entry-eq e x h) (same_entry_refl x)

same_entry_trans :
    (e y x : KeyVal) → same_entry e y ≡ true → same_entry x y ≡ true → same_entry e x ≡ true
same_entry_trans e y x h t = rw (same_entry-eq e y h) (same_entry_sym x y t)

same_entry_other :
    (e y x : KeyVal) → same_entry e y ≡ false → same_entry x y ≡ true → same_entry e x ≡ false
same_entry_other e y x h t = rw (same_entry-eq x y t) h

pub has-remove :
    (x e : KeyVal) (es : List KeyVal) → has x (remove e es) ≡ (not (same_entry e x) && has x es)
has-remove x e [] = unfold has remove in by_test (same_entry e x)
  where
    by_test : (b : Bool) → false ≡ (not b && false)
    by_test true = refl
    by_test false = refl
has-remove x e (y ∷ es) = elim (Bool-cases (same_entry e y)) [
  | inl h ↦ elim (Bool-cases (same_entry x y)) [
    | inl t ↦ rw (remove-same e y es h, has-remove x e es, same_entry_trans e y x h t) refl
    | inr t ↦ rw (remove-same e y es h, has-remove x e es, has-other x y es t) refl
  ]
  | inr h ↦ elim (Bool-cases (same_entry x y)) [
    | inl t ↦
        rw
          (
            remove-other e y es h,
            has-same x y es t,
            has-same x y (remove e es) t,
            same_entry_other e y x h t,
          )
          refl
    | inr t ↦
        rw (remove-other e y es h, has-other x y es t, has-other x y (remove e es) t)
          (has-remove x e es)
  ]
]

pub rewind-remove :
    (e : KeyVal) (before after : List KeyVal)
    → rewind (remove e before) (remove e after) ≡ remove e (rewind before after)
unfolding rewind
rewind-remove e [] after = unfold remove in refl
rewind-remove e (x ∷ before) after =
    let ih = rewind-remove e before (x ∷ after) in
    elim (Bool-cases (same_entry e x)) [
      | inl h ↦
          rw (remove-same e x before h)
            (ap (rewind (remove e before)) (sym (remove-same e x after h)) ∙ ih)
      | inr h ↦
          rw (remove-other e x before h)
            (ap (rewind (remove e before)) (sym (remove-other e x after h)) ∙ ih)
    ]

-- The search for a pair finds it exactly when the database has it.
seek-none :
    (e : KeyVal) (before es : List KeyVal) → has e es ≡ false → seek (same_entry e) before es ≡ none
unfolding seek
seek-none e before [] h = refl
seek-none e before (x ∷ es) h = elim (Bool-cases (same_entry e x)) [
  | inl t ↦ absurd (true≢false (sym (has-same e x es t) ∙ h))
  | inr t ↦ rw t (seek-none e (x ∷ before) es (sym (has-other e x es t) ∙ h))
]

seek-some :
    (e : KeyVal) (before es : List KeyVal)
    → has e es ≡ true
    → (before' : List KeyVal) × (after : List KeyVal) × (seek (same_entry e) before es
        ≡ some (e, place before' (e ∷ after)))
      × (rewind before' (e ∷ after) ≡ rewind before es)
unfolding seek rewind
seek-some e before [] h = absurd (true≢false (sym h ∙ unfold has in refl))
seek-some e before (x ∷ es) h = elim (Bool-cases (same_entry e x)) [
  | inl t ↦
      let eq = sym (same_entry-eq e x t) in
      (
        before,
        es,
        rw t (ap (λ y. some (y, place before (y ∷ es))) eq),
        ap (λ y. rewind before (y ∷ es)) (sym eq),
      )
  | inr t ↦ rw t (seek-some e (x ∷ before) es (sym (has-other e x es t) ∙ h))
]

module _ (cmp : Bytes → Bytes → Ordering) (l : Lmdb) (doc : IsDocumented cmp l) {K : Type 0}
    ⦃k : Key K⦄ (key : K) (val : Bytes) (c : Cursor) where
  abbrev pair : KeyVal
  pair = (k.as_bytes key, val)

  -- A search for a pair that the database does not have.
  pub move_to_key_val-none :
      has pair (entries c.cursor) ≡ false
      → (p' : Position) × (entries p' ≡ entries c.cursor)
        × (move_to_key_val l key val c ≡ ok (none, record c { cursor = p' }))
  unfolding move_to_key_val
  move_to_key_val-none h =
      op_get-missing cmp l doc mdb_get_both (some (k.as_bytes key)) (some val) c
        (unfold is_asked in refl) (unfold step in seek-none pair [] (entries c.cursor) h)

  -- A pair that the database has is found, and can be deleted there.
  pub delete_current-found :
      c.write ≡ true
      → has pair (entries c.cursor) ≡ true
      → (found : Cursor) × (p' : Position) × (move_to_key_val l key val c ≡ ok (some pair, found))
        × (delete_current l found ≡ ok (record c { cursor = p' }))
        × (entries p' ≡ remove pair (entries c.cursor))
  unfolding move_to_key_val delete_current written or_fail lmdb_result entries rewind
  delete_current-found w h =
      let (before, after, seeks, all) = seek-some pair [] (entries c.cursor) h in
      (
        record c { cursor = place before (pair ∷ after) },
        record {
          before = remove pair before;
          after = remove pair after;
          deleted = some (k.as_bytes key);
        },
        op_get-found cmp l doc mdb_get_both (some (k.as_bytes key)) (some val) c pair
            (place before (pair ∷ after)) (unfold step in seeks),
        ap
              (λ b.
                assert b
                >> or_fail l (written l c (l.mdb_cursor_del (place before (pair ∷ after)))))
              w
            ∙ ap (λ r. or_fail l (written l c r)) (doc.removed before after pair),
        ap (rewind (remove pair before)) (sym (remove-same pair pair after (same_entry_refl pair)))
            ∙ rewind-remove pair before (pair ∷ after)
            ∙ ap (remove pair) all,
      )

  -- A pair that is put is there, and nothing else changes.
  pub put-has :
      StoresPairs l
      → c.write ≡ true
      → (p' : Position) × (put l key val c ≡ ok (record c { cursor = p' }))
        × ((e : KeyVal) → has e (entries p') ≡ (same_entry e pair || has e (entries c.cursor)))
  unfolding put put_internal written or_fail lmdb_result
  put-has stores w =
      let (p', eq, law) = stores.added (k.as_bytes key) val c.cursor in
      (
        p',
        ap
              (λ b.
                (assert b
                  >> ok (written l c (l.mdb_cursor_put (k.as_bytes key) val false c.cursor)))
                >>= or_fail l)
              w
            ∙ ap (λ r. or_fail l (written l c r)) eq,
        law,
      )
