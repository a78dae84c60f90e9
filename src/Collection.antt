-- ===== src/Collection.antt =====
-- src/collection.rs: a collection, with the counter of its ids.
pub mod Counter
pub mod Store
pub mod Jobs
use Prim.Native.String.{String}
use isar_core.Prelude.{
  ℕ, Bool, true, false, not, ◌==◌, if◌then◌else◌, Option, none, some, List, [], ◌∷◌, ◌++◌, map,
  get_elem?,
}
use isar_core.Prelude.Int.{ℤ, pos, ltb_ℤ, leb_ℤ, wrapping_add}
use isar_core.Prelude.{◌^◌}
use isar_core.Error.{Result, ok, err, illegal_arg, auto_increment_overflow}
use isar_core.Lmdb.IntKey.{max_id}
use isar_core.Object.ObjectInfo.{Property, ObjectInfo}
use isar_core.Index.Types.{Index}
use isar_core.Index.IndexKey.{IndexKey}
use isar_core.Index.IndexKey
use isar_core.Link.{Link, to_backlink}

pub record IsarCollection : Type 0 where
  pub id : ℕ
  pub name : String
  pub object_info : ObjectInfo
  pub indexes : List Index
  pub links : List (String × Link)
  pub backlinks : List Link
  pub oid_counter : ℤ

unfoldable pub new :
    ℕ → String → ObjectInfo → List Index → List (String × Link) → List Link → IsarCollection
new id name object_info indexes links backlinks = record {
  id = id;
  name = name;
  object_info = object_info;
  indexes = indexes;
  links = links;
  backlinks = backlinks;
  oid_counter = pos 0;
}

unfoldable pub update_oid_counter : ℤ → IsarCollection → IsarCollection
update_oid_counter counter col =
    if ltb_ℤ col.oid_counter counter then record col { oid_counter = counter } else col

unfoldable pub get_links_and_backlinks : IsarCollection → List Link
get_links_and_backlinks col = map (λ named. named.1) col.links ++ col.backlinks

unfoldable pub get_oid_property : IsarCollection → Property
get_oid_property col = col.object_info.id_property

unfoldable pub new_index_key : IsarCollection → ℕ → Option IndexKey
unfolding IndexKey.new
new_index_key col index_index = elim (get_elem? col.indexes index_index) [
  | none ↦ none
  | some i ↦ some (IndexKey.new i)
]

unfoldable pub verify_index_key : IsarCollection → IndexKey → Result (Unit {0})
verify_index_key col key =
    if not (key.index.col_id == col.id)
    then err (illegal_arg "Invalid IndexKey for this collection")
    else ok tt

-- The sum of two `i64`. The counter after it is that of the collection.
unfoldable pub auto_increment_internal : IsarCollection → Result (ℤ × IsarCollection)
unfolding wrapping_add
auto_increment_internal col =
    let counter = wrapping_add (2 ^ 63) col.oid_counter (pos 1) in
    if leb_ℤ counter max_id
    then ok (counter, record col { oid_counter = counter })
    else err auto_increment_overflow

unfoldable pub get_link_backlink : IsarCollection → ℕ → Bool → Result Link
unfolding to_backlink
get_link_backlink col link_index backlink = elim (get_elem? col.links link_index) [
  | none ↦ err (illegal_arg "Link does not exist")
  | some named ↦ ok (if backlink then to_backlink (named.1) else named.1)
]
