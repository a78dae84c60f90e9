-- ===== src/Watch/Watchers.antt =====
-- src/watch/isar_watchers.rs: adding and removing watchers, and the watchers of the collections. A watcher
-- is its id, since its callback is only called by `notify`.
pub mod Removed
use isar_core.Prelude.{
  ℕ, ◌==◌, Bool, true, false, any, if◌then◌else◌, Option, none, some, List, [], ◌∷◌, ◌++◌,
}
use isar_core.Prelude.Int.{ℤ, eqb_ℤ}
use isar_core.Error.{Result, ok, ◌>>=◌, unwrap}
use isar_core.Watch.{IsarCollectionWatchers}

-- `position(...)` and `remove`: the list without the first element that meets the test.
unfoldable pub remove_first {ℓ} : {A : Type ℓ} → (A → Bool) → List A → Option (List A)
remove_first test [] = none
remove_first test (a ∷ list) =
    let rest = remove_first test list in
    if test a then some list else elim rest [ none ↦ none | some list' ↦ some (a ∷ list') ]

abbrev pub watchers_of : Option (List ℕ) → List ℕ
watchers_of none = []
watchers_of (some ws) = ws

module _ {Q : Type 0} where
  unfoldable pub new : IsarCollectionWatchers Q
  new = record { watchers = []; object_watchers = λ oid. none; query_watchers = [] }

  unfoldable pub add_watcher : IsarCollectionWatchers Q → ℕ → IsarCollectionWatchers Q
  add_watcher cw watcher_id = record cw { watchers = cw.watchers ++ watcher_id ∷ [] }

  unfoldable pub remove_watcher : IsarCollectionWatchers Q → ℕ → Result (IsarCollectionWatchers Q)
  unfolding remove_first
  remove_watcher cw watcher_id = do
    watchers ← unwrap (remove_first (λ w. w == watcher_id) cw.watchers)
    ok (record cw { watchers = watchers })

  -- A map with the watchers of one object replaced.
  abbrev pub with_object : IsarCollectionWatchers Q → ℤ → List ℕ → IsarCollectionWatchers Q
  with_object cw oid ws = record cw {
    object_watchers = λ other. if eqb_ℤ oid other then some ws else cw.object_watchers other;
  }

  unfoldable pub add_object_watcher : IsarCollectionWatchers Q → ℕ → ℤ → IsarCollectionWatchers Q
  add_object_watcher cw watcher_id oid =
      with_object cw oid (watchers_of (cw.object_watchers oid) ++ watcher_id ∷ [])

  unfoldable pub remove_object_watcher :
      IsarCollectionWatchers Q → ℤ → ℕ → Result (IsarCollectionWatchers Q)
  unfolding remove_first
  remove_object_watcher cw oid watcher_id = do
    watchers ← unwrap (cw.object_watchers oid)
    left ← unwrap (remove_first (λ w. w == watcher_id) watchers)
    ok (with_object cw oid left)

  unfoldable pub add_query_watcher : IsarCollectionWatchers Q → ℕ → Q → IsarCollectionWatchers Q
  add_query_watcher cw watcher_id query = record cw {
    query_watchers = cw.query_watchers ++ (query, watcher_id) ∷ [];
  }

  unfoldable pub remove_query_watcher :
      IsarCollectionWatchers Q → ℕ → Result (IsarCollectionWatchers Q)
  unfolding remove_first
  remove_query_watcher cw watcher_id = do
    watchers ← unwrap (remove_first (λ (w : Q × ℕ). w.1 == watcher_id) cw.query_watchers)
    ok (record cw { query_watchers = watchers })
