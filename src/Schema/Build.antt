-- ===== src/Schema/Build.antt =====
-- src/schema/collection_schema.rs: the collection that a schema describes. `panic` is an `unwrap`.
pub mod Backlinks
use Prim.Native.String.{String}
use isar_core.Prelude.{
  ℕ, Bool, true, false, not, ◌&&◌, ◌==◌, if◌then◌else◌, Option, none, some, List, [], ◌∷◌, ◌++◌,
}
use isar_core.Error.{Result, ok, ◌>>=◌, unwrap}
use isar_core.Object.ObjectInfo
use isar_core.Object.ObjectInfo.{Property}
use isar_core.Index.Types.{IndexProperty, Index}
use isar_core.Link
use isar_core.Link.{Link}
use isar_core.Collection
use isar_core.Collection.{IsarCollection}
use isar_core.Schema.Names.{eq_string, find}
use isar_core.Schema.CollectionSchema.{
  PropertySchema, IndexPropertySchema, IndexSchema, LinkSchema, CollectionSchema,
}

unfoldable pub get_properties : List PropertySchema → Result (List (String × Property))
get_properties [] = ok []
get_properties (f ∷ properties) = do
  offset ← unwrap f.offset
  rest ← get_properties properties
  ok ((f.name, record { data_type = f.data_type; offset = offset }) ∷ rest)

unfoldable pub get_index_properties :
    List (String × Property) → List IndexPropertySchema → Result (List IndexProperty)
unfolding find
get_index_properties properties [] = ok []
get_index_properties properties (ips ∷ rest) = do
  named ← unwrap (find (λ p. eq_string (p.0) ips.name) properties)
  index_properties ← get_index_properties properties rest
  ok (
      record {
        property = named.1;
        index_type = ips.index_type;
        case_sensitive = ips.case_sensitive;
      }
      ∷ index_properties)

unfoldable pub get_indexes :
    Option ℕ → List (String × Property) → List IndexSchema → Result (List Index)
unfolding get_index_properties
get_indexes col_id properties [] = ok []
get_indexes col_id properties (index ∷ indexes) = do
  index_properties ← get_index_properties properties index.properties
  id ← unwrap index.id
  col ← unwrap col_id
  rest ← get_indexes col_id properties indexes
  ok (
      record {
        id = id;
        col_id = col;
        properties = index_properties;
        unique = index.unique;
        replace = index.replace;
      }
      ∷ rest)

unfoldable pub get_links :
    Option ℕ → List CollectionSchema → List LinkSchema → Result (List (String × Link))
unfolding find Link.new
get_links col_id cols [] = ok []
get_links col_id cols (l ∷ links) = do
  target ← unwrap (find (λ c. eq_string c.name l.target_col) cols)
  target_col_id ← unwrap target.id
  id ← unwrap l.id
  backlink_id ← unwrap l.backlink_id
  col ← unwrap col_id
  rest ← get_links col_id cols links
  ok ((l.name, Link.new id backlink_id col target_col_id) ∷ rest)

-- The backlinks of the links of one collection `c` to the collection of that id and name.
unfoldable pub backlinks_of : Option ℕ → String → Option ℕ → List LinkSchema → Result (List Link)
unfolding Link.new
backlinks_of col_id name c_id [] = ok []
backlinks_of col_id name c_id (l ∷ links) =
    if eq_string l.target_col name
    then (do
      backlink_id ← unwrap l.backlink_id
      id ← unwrap l.id
      c ← unwrap c_id
      col ← unwrap col_id
      rest ← backlinks_of col_id name c_id links
      ok (Link.new backlink_id id c col ∷ rest))
    else backlinks_of col_id name c_id links

abbrev eq_id : Option ℕ → Option ℕ → Bool
eq_id none none = true
eq_id (some a) (some b) = a == b
eq_id _ _ = false

unfoldable pub get_backlinks : Option ℕ → String → List CollectionSchema → Result (List Link)
unfolding backlinks_of
get_backlinks col_id name [] = ok []
get_backlinks col_id name (c ∷ cols) =
    if eq_id c.id col_id then get_backlinks col_id name cols else (do
      links ← backlinks_of col_id name c.id c.links
      rest ← get_backlinks col_id name cols
      ok (links ++ rest))

unfoldable pub get_isar_collection :
    CollectionSchema → List CollectionSchema → Result IsarCollection
unfolding get_properties get_indexes get_links get_backlinks find ObjectInfo.new Collection.new
get_isar_collection col cols = do
  properties ← get_properties col.properties
  indexes ← get_indexes col.id properties col.indexes
  links ← get_links col.id cols col.links
  backlinks ← get_backlinks col.id col.name cols
  id_property ← unwrap (find (λ p. eq_string (p.0) col.id_property) properties)
  id ← unwrap col.id
  ok (
      Collection.new id col.name (ObjectInfo.new (id_property.1) properties) indexes links
        backlinks)

unfoldable pub build_collections :
    List CollectionSchema → List CollectionSchema → Result (List IsarCollection)
unfolding get_isar_collection
build_collections cols [] = ok []
build_collections cols (c ∷ rest) = do
  collection ← get_isar_collection c cols
  collections ← build_collections cols rest
  ok (collection ∷ collections)
