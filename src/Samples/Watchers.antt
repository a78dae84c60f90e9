-- ===== src/Samples/Watchers.antt =====
-- A change of the object 5, with two watchers of its collection, one of the object, and two queries.
use isar_core.Prelude.{ℕ, ◌≡◌, refl, inr}
use isar_core.Prelude.{Bool, true, ◌==◌, some, [], ◌∷◌, All}
use isar_core.Prelude.Int.{ℤ, pos}
use isar_core.Watch.{IsarCollectionWatchers, register_change}
use isar_core.Watch.Registered.{In, register_change-notifies}

abbrev matches : ℕ → ℤ → ℕ → Bool
matches query oid object = query == object

abbrev collection : IsarCollectionWatchers ℕ
collection = record {
  watchers = 1 ∷ 2 ∷ [];
  object_watchers = λ oid. some (3 ∷ []);
  query_watchers = (7, 4) ∷ (8, 5) ∷ [];
}

changed : register_change matches collection (some (pos 5)) (some 7) [] ≡ 4 ∷ 3 ∷ 2 ∷ 1 ∷ []
unfolding register_change
changed = refl

register_change-notifies_example :
    All (In (register_change matches collection (some (pos 5)) (some 7) [])) (1 ∷ 2 ∷ [])
    × All (In (register_change matches collection (some (pos 5)) (some 7) [])) (3 ∷ [])
    × All
        (λ (x : ℕ × ℕ).
          matches (x.0) (pos 5) 7 ≡ true
          → In (register_change matches collection (some (pos 5)) (some 7) []) (x.1))
        ((7, 4) ∷ (8, 5) ∷ [])
register_change-notifies_example =
    register_change-notifies matches (pos 5) 7 collection [] (refl, (refl, tt)) (refl, tt)
      (refl, tt) (inr (refl, (refl, tt))) (inr (refl, tt))
