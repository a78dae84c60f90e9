-- ===== src/Watch/Watchers/Removed.antt =====
-- What is left when a watcher is removed again.
use isar_core.Prelude.{
  ℕ, ◌≡◌, refl, ap, sym, ◌∙◌, arith, ◌==◌, ◌||◌, Bool, true, false, any, some, List, [], ◌∷◌, ◌++◌,
  inl, inr, Bool-cases,
}
use isar_core.Prelude.Int.{ℤ, eqb_ℤ}
use isar_core.Error.{ok}
use isar_core.Lmdb.IntKey.Same.{eqb_refl, eqb-eq}
use isar_core.Watch.{IsarCollectionWatchers}
use isar_core.Watch.Watchers.{
  remove_first, add_watcher, remove_watcher, add_object_watcher, remove_object_watcher,
  add_query_watcher, remove_query_watcher, with_object, watchers_of,
}

-- The last element is removed where no other meets the test.
remove_first-append {ℓ} :
    {A : Type ℓ} (test : A → Bool) (list : List A) (a : A)
    → any test list ≡ false
    → test a ≡ true
    → remove_first test (list ++ a ∷ []) ≡ some list
unfolding remove_first
remove_first-append test [] a others this = rw this refl
remove_first-append test (b ∷ list) a others this = elim (Bool-cases (test b)) [
  | inl y ↦ cc
  | inr n ↦
      rw (n, remove_first-append test list a (ap (λ t. t || any test list) (sym n) ∙ others) this)
        refl
]

same_id : (id : ℕ) → (id == id) ≡ true
same_id id = ground arith

module _ {Q : Type 0} (cw : IsarCollectionWatchers Q) (watcher_id : ℕ) where
  removed_object :
      (oid : ℤ)
      → any (λ w. w == watcher_id) (watchers_of (cw.object_watchers oid)) ≡ false
      → remove_object_watcher (add_object_watcher cw watcher_id oid) oid watcher_id
        ≡ ok (
            with_object
              (add_object_watcher cw watcher_id oid)
              oid
              (watchers_of (cw.object_watchers oid)))
  unfolding remove_object_watcher add_object_watcher
  removed_object oid unused =
      rw
        (
          eqb_refl oid,
          remove_first-append (λ w. w == watcher_id) _ watcher_id unused (same_id watcher_id),
        )
        refl

  same_object :
      (oid other : ℤ)
      → watchers_of (
          (with_object
              (add_object_watcher cw watcher_id oid)
              oid
              (watchers_of (cw.object_watchers oid))).object_watchers
            other)
        ≡ watchers_of (cw.object_watchers other)
  unfolding add_object_watcher
  same_object oid other = elim (Bool-cases (eqb_ℤ oid other)) [
    | inl y ↦ rw y (ap (λ z. watchers_of (cw.object_watchers z)) (eqb-eq oid other y))
    | inr n ↦ rw n refl
  ]

  -- Removing a watcher whose id no other watcher has, after it was added, does not fail and leaves the
  -- watchers as they were: those of the collection, those of every object, and those of queries.
  pub remove-add :
      (oid : ℤ) (query : Q)
      → any (λ w. w == watcher_id) cw.watchers ≡ false
      → any (λ w. w == watcher_id) (watchers_of (cw.object_watchers oid)) ≡ false
      → any (λ (w : Q × ℕ). w.1 == watcher_id) cw.query_watchers ≡ false
      → (remove_watcher (add_watcher cw watcher_id) watcher_id ≡ ok cw)
        × (remove_query_watcher (add_query_watcher cw watcher_id query) watcher_id ≡ ok cw)
        × ((after : IsarCollectionWatchers Q) × (remove_object_watcher
                (add_object_watcher cw watcher_id oid)
                oid
                watcher_id
              ≡ ok after)
            × ((other : ℤ)
                → watchers_of (after.object_watchers other)
                  ≡ watchers_of (cw.object_watchers other)))
  unfolding remove_watcher add_watcher remove_query_watcher add_query_watcher
  remove-add oid query unused unused_object unused_query = (
    rw
        (remove_first-append (λ w. w == watcher_id) cw.watchers watcher_id unused
          (same_id watcher_id))
        refl,
    rw
        (remove_first-append (λ (w : Q × ℕ). w.1 == watcher_id) cw.query_watchers
          (query, watcher_id) unused_query (same_id watcher_id))
        refl,
    (_, removed_object oid unused_object, same_object oid),
  )
