-- ===== src/Watch.antt =====
-- src/watch/change_set.rs: the watchers that a transaction notifies. Watchers are their ids, the set of
-- changed watchers is the list of their ids, and `matches_wc_filter` is a parameter.
pub mod Registered
pub mod Watchers
use isar_core.Prelude.{
  ℕ, zero, suc, ◌+◌, ◌-◌, ◌*◌, ◌^◌, ◌≤◌, ◌<◌, ◌≡◌, refl, sym, ap, ◌∙◌, ◌⊎◌, ◌↔◌, inl, inr, arith,
  compare, Ordering, reverse, is_lt, is_le, is_eq,
}
use isar_core.Prelude.{
  Bool, true, false, not, ◌&&◌, ◌||◌, ltb, leb, ◌==◌, if◌then◌else◌, Option, none, some, List, [],
  ◌∷◌, ◌++◌, map, length, any, take, drop, get_elem?, All, Bool-cases, Option-cases,
}
use isar_core.Prelude.Int.{ℤ}
use isar_core.Query.Execute.{contains}

pub record IsarCollectionWatchers (Q : Type 0) : Type 0 where
  pub watchers : List ℕ
  pub object_watchers : ℤ → Option (List ℕ)
  pub query_watchers : List (Q × ℕ)

-- The loops over the watchers of the collection and of an object: they end at the first watcher that was
-- in the set before.
unfoldable pub insert_until_known : List ℕ → List ℕ → List ℕ
insert_until_known [] changed = changed
insert_until_known (w ∷ ws) changed =
    let rest = insert_until_known ws (w ∷ changed) in if contains changed w then changed else rest

abbrev pub insert_object : Option (List ℕ) → List ℕ → List ℕ
insert_object none changed = changed
insert_object (some ws) changed = insert_until_known ws changed

module _ {Q O : Type 0} (matches_wc_filter : Q → ℤ → O → Bool) where
  -- The loop over the query watchers.
  unfoldable pub insert_queries : ℤ → O → List (Q × ℕ) → List ℕ → List ℕ
  insert_queries oid object [] changed = changed
  insert_queries oid object ((q, w) ∷ ws) changed =
      insert_queries oid object ws (
        if not (contains changed w) && matches_wc_filter q oid object then w ∷ changed else changed)

  unfoldable pub register_change : IsarCollectionWatchers Q → Option ℤ → Option O → List ℕ → List ℕ
  unfolding insert_until_known insert_queries
  register_change cw none object changed = insert_until_known cw.watchers changed
  register_change cw (some oid) none changed =
      insert_object (cw.object_watchers oid) (insert_until_known cw.watchers changed)
  register_change cw (some oid) (some object) changed =
      insert_queries oid object cw.query_watchers
        (insert_object (cw.object_watchers oid) (insert_until_known cw.watchers changed))
