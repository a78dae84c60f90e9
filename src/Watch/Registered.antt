-- ===== src/Watch/Registered.antt =====
-- Which watchers are in the change set after a change.
use isar_core.Prelude.{ℕ, ◌≡◌, refl, ap, ◌∙◌, ◌⊎◌, inl, inr, arith}
use isar_core.Prelude.{Bool, true, false, Option, none, some, List, [], ◌∷◌, All}
use isar_core.Prelude.Int.{ℤ}
use isar_core.Query.Execute.{contains}
use isar_core.Watch.{
  IsarCollectionWatchers, insert_until_known, insert_queries, insert_object, register_change,
}

abbrev pub In : List ℕ → ℕ → Type 0
In changed w = contains changed w ≡ true

abbrev pub Out : List ℕ → ℕ → Type 0
Out changed w = contains changed w ≡ false

abbrev pub IsDistinct : List ℕ → Type 0
IsDistinct [] = Unit {0}
IsDistinct (w ∷ ws) = Out ws w × IsDistinct ws

-- A change set that no loop has left halfway: it holds all of the watchers, or none of them.
abbrev pub IsWhole : List ℕ → List ℕ → Type 0
IsWhole changed ws = All (In changed) ws ⊎ All (Out changed) ws

insert_until_known-In :
    (ws changed : List ℕ) (v : ℕ) → In changed v → In (insert_until_known ws changed) v
unfolding insert_until_known
insert_until_known-In [] changed v h = h
insert_until_known-In (w ∷ ws) changed v h =
    ground (arith, h, insert_until_known-In ws (w ∷ changed) v)

insert_until_known-Out :
    (ws changed : List ℕ) (v : ℕ) → Out changed v → Out ws v → Out (insert_until_known ws changed) v
unfolding insert_until_known
insert_until_known-Out [] changed v h k = h
insert_until_known-Out (w ∷ ws) changed v h k =
    ground (arith, h, k, insert_until_known-Out ws (w ∷ changed) v)

All-map : {P Q : ℕ → Type 0} → ((v : ℕ) → P v → Q v) → (ws : List ℕ) → All P ws → All Q ws
All-map f [] h = tt
All-map f (w ∷ ws) h = (f w h.0, All-map f ws h.1)

-- Watchers that are not in the set, and not the inserted one, are still not in it.
Out-cons :
    (ws : List ℕ) (w : ℕ) (changed : List ℕ)
    → Out ws w
    → All (Out changed) ws
    → All (Out (w ∷ changed)) ws
Out-cons [] w changed k h = tt
Out-cons (v ∷ ws) w changed k h =
    (ground (arith, k, h.0), Out-cons ws w changed (ground (arith, k)) (h.1))

insert_until_known-new :
    (w : ℕ) (ws changed : List ℕ)
    → Out changed w
    → insert_until_known (w ∷ ws) changed ≡ insert_until_known ws (w ∷ changed)
unfolding insert_until_known
insert_until_known-new w ws changed h = rw h refl

insert_until_known-All :
    (ws changed : List ℕ)
    → IsDistinct ws
    → IsWhole changed ws
    → All (In (insert_until_known ws changed)) ws
insert_until_known-All ws changed d (inl h) = All-map (insert_until_known-In ws changed) ws h
insert_until_known-All [] changed d (inr h) = tt
insert_until_known-All (w ∷ ws) changed d (inr h) =
    let next = insert_until_known-All ws (w ∷ changed) d.1 (inr (Out-cons ws w changed d.0 h.1)) in
    let same = insert_until_known-new w ws changed h.0 in
    (
      rw same (insert_until_known-In ws (w ∷ changed) w (ground arith)),
      All-map (λ v k. ap (λ (l : List ℕ). contains l v) same ∙ k) ws next,
    )

-- The watchers of an object that are not watchers of the collection.
insert_until_known-IsWhole :
    (ws vs changed : List ℕ)
    → All (Out ws) vs
    → IsWhole changed vs
    → IsWhole (insert_until_known ws changed) vs
insert_until_known-IsWhole ws vs changed d (inl h) =
    inl (All-map (insert_until_known-In ws changed) vs h)
insert_until_known-IsWhole ws vs changed d (inr h) = inr (both vs d h)
  where
    both :
        (vs : List ℕ)
        → All (Out ws) vs
        → All (Out changed) vs
        → All (Out (insert_until_known ws changed)) vs
    both [] d h = tt
    both (v ∷ vs) d h = (insert_until_known-Out ws changed v (h.0) (d.0), both vs (d.1) (h.1))

-- The watchers of an object, of which there may be none.
abbrev pub watchers_of : Option (List ℕ) → List ℕ
watchers_of none = []
watchers_of (some ws) = ws

insert_object-watchers_of :
    (ws : Option (List ℕ)) (changed : List ℕ)
    → insert_object ws changed ≡ insert_until_known (watchers_of ws) changed
unfolding insert_until_known
insert_object-watchers_of none changed = refl
insert_object-watchers_of (some ws) changed = refl

module _ {Q O : Type 0} (matches : Q → ℤ → O → Bool) (oid : ℤ) (object : O) where
  insert_queries-In :
      (ws : List (Q × ℕ)) (changed : List ℕ) (v : ℕ)
      → In changed v
      → In (insert_queries matches oid object ws changed) v
  unfolding insert_queries
  insert_queries-In [] changed v h = h
  insert_queries-In ((q, w) ∷ ws) changed v h = insert_queries-In ws _ v (ground (arith, h))

  insert_queries-All :
      (ws : List (Q × ℕ)) (changed : List ℕ)
      → All
          (λ (x : Q × ℕ).
            matches (x.0) oid object ≡ true
            → In (insert_queries matches oid object ws changed) (x.1))
          ws
  unfolding insert_queries
  insert_queries-All [] changed = tt
  insert_queries-All ((q, w) ∷ ws) changed =
      (λ m. insert_queries-In ws _ w (ground (arith, m)), insert_queries-All ws _)

  -- When an object is written, each watcher of its collection, each watcher of the object, if it
  -- has any, and the watcher of each query that matches it are in the change set: provided that no watcher is registered twice, that
  -- the watchers of the object are none of the collection, and that the change set held all or none of
  -- each of the two lists before.
  pub register_change-notifies :
      (cw : IsarCollectionWatchers Q) (changed : List ℕ)
      → IsDistinct cw.watchers
      → IsDistinct (watchers_of (cw.object_watchers oid))
      → All (Out cw.watchers) (watchers_of (cw.object_watchers oid))
      → IsWhole changed cw.watchers
      → IsWhole changed (watchers_of (cw.object_watchers oid))
      → All (In (register_change matches cw (some oid) (some object) changed)) cw.watchers
        × All
            (In (register_change matches cw (some oid) (some object) changed))
            (watchers_of (cw.object_watchers oid))
        × All
            (λ (x : Q × ℕ).
              matches (x.0) oid object ≡ true
              → In (register_change matches cw (some oid) (some object) changed) (x.1))
            cw.query_watchers
  unfolding register_change
  register_change-notifies cw changed d d' apart whole whole' =
      let ws = watchers_of (cw.object_watchers oid) in
      let first = insert_until_known cw.watchers changed in
      let second = insert_until_known ws first in
      rw (insert_object-watchers_of (cw.object_watchers oid) first) (
        All-map
            (λ v h.
              insert_queries-In cw.query_watchers second v (insert_until_known-In ws first v h))
            cw.watchers (insert_until_known-All cw.watchers changed d whole),
        All-map (insert_queries-In cw.query_watchers second) ws (
            insert_until_known-All ws first d'
              (insert_until_known-IsWhole cw.watchers ws changed apart whole')),
        insert_queries-All cw.query_watchers second,
      )
