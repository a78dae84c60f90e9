-- ===== src/Schema/Ids.antt =====
-- src/schema/mod.rs: the verification of a schema, and the ids that a new schema gets. `panic` is a failed
-- assertion, or a loop that is out of rounds.
pub mod Drawn
use Prim.Native.String.{String}
use isar_core.Prelude.{
  ℕ, zero, suc, ◌+◌, Bool, true, false, not, ◌&&◌, ◌||◌, ltb, ◌==◌, if◌then◌else◌, Option, none,
  some, List, [], ◌∷◌, ◌++◌, map, length,
}
use Prim.Native.Nat.{max}
use isar_core.Error.{Result, ok, err, panic, ◌>>=◌, ◌>>◌, assert, unwrap, schema_error}
use isar_core.Object.DataType.{DataType, is_type, get_static_size}
use isar_core.Index.Types.{IndexType}
use isar_core.Query.Execute.{contains}
use isar_core.Schema.Names.{eq_string, find, count_unique}
use isar_core.Schema.CollectionSchema.{
  PropertySchema, IndexPropertySchema, IndexSchema, LinkSchema, CollectionSchema, verify,
}
use isar_core.Schema.Update.{update_with_existing_collection}

-- A schema is its collections.
unfoldable pub verify_collections : List CollectionSchema → Result (List CollectionSchema)
unfolding verify
verify_collections [] = ok []
verify_collections (col ∷ cols) = do
  verified ← verify col
  rest ← verify_collections cols
  ok (verified ∷ rest)

unfoldable pub verify_schema : List CollectionSchema → Result (List CollectionSchema)
unfolding verify_collections count_unique
verify_schema cols =
    if not (count_unique [] (map (λ c. c.name) cols) == length cols)
    then err (schema_error "Duplicate collections")
    else verify_collections cols

-- `ids.insert(id)` under its assertion.
unfoldable pub insert_id : Option ℕ → List ℕ → Result (List ℕ)
insert_id none ids = ok ids
insert_id (some id) ids = do assert (not (contains ids id)); ok (id ∷ ids)

unfoldable pub insert_ids : List (Option ℕ) → List ℕ → Result (List ℕ)
unfolding insert_id
insert_ids [] ids = ok ids
insert_ids (id ∷ rest) ids = do ids' ← insert_id id ids; insert_ids rest ids'

-- The ids of links are not collected.
unfoldable pub collect_ids : List CollectionSchema → List ℕ → Result (List ℕ)
unfolding insert_ids
collect_ids [] ids = ok ids
collect_ids (col ∷ cols) ids = do
  ids' ← insert_ids (col.id ∷ map (λ i. i.id) col.indexes) ids
  collect_ids cols ids'

-- The loop that draws random numbers until one is new. The state is the ids that are in use, and how many
-- numbers were drawn.
module _ (random : ℕ → ℕ) where
  unfoldable pub get_id : ℕ → List ℕ × ℕ → Result (ℕ × (List ℕ × ℕ))
  get_id zero (ids, drawn) = panic
  get_id (suc rounds) (ids, drawn) = elim (contains ids (random drawn)) [
    | true ↦ get_id rounds (ids, suc drawn)
    | false ↦ ok (random drawn, (random drawn ∷ ids, suc drawn))
  ]

  unfoldable pub update_collections :
      ℕ
      → List CollectionSchema
      → List CollectionSchema
      → List ℕ × ℕ
      → Result (List CollectionSchema × (List ℕ × ℕ))
  unfolding update_with_existing_collection get_id find
  update_collections rounds existing [] s = ok ([], s)
  update_collections rounds existing (col ∷ cols) s = do
    updated ←
        update_with_existing_collection (get_id rounds) col
          (find (λ c. eq_string c.name col.name) existing) s
    rest ← update_collections rounds existing cols (updated.1)
    ok (updated.0 ∷ rest.0, rest.1)

  unfoldable pub update_with_existing_schema_internal :
      ℕ → List CollectionSchema → Option (List CollectionSchema) → Result (List CollectionSchema)
  unfolding collect_ids update_collections
  update_with_existing_schema_internal rounds cols none = do
    updated ← update_collections rounds [] cols ([], 0)
    ok (updated.0)
  update_with_existing_schema_internal rounds cols (some existing) = do
    ids ← collect_ids existing []
    updated ← update_collections rounds existing cols (ids, 0)
    ok (updated.0)
