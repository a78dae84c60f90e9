-- ===== src/Schema/CollectionSchema.antt =====
-- src/schema/collection_schema.rs: the schema of a collection and its verification. `panic` is an `unwrap`.
pub mod Composite
pub mod Verified
use Prim.Native.String.{String}
use isar_core.Prelude.{
  ℕ, zero, suc, ◌-◌, Bool, true, false, not, ◌&&◌, ◌||◌, ltb, ◌==◌, if◌then◌else◌, Option, none,
  some, List, [], ◌∷◌, ◌++◌, map, length,
}
use isar_core.Prelude.{◌+◌}
use isar_core.Error.{Result, ok, err, ◌>>=◌, ◌>>◌, schema_error}
use isar_core.Object.DataType.{DataType, is_type, is_dynamic}
use isar_core.Index.Types.{IndexType}
use isar_core.Schema.Names.{eq_string, is_empty, find, count_unique}

pub record PropertySchema : Type 0 where
  pub name : String
  pub data_type : DataType
  pub offset : Option ℕ

pub record IndexPropertySchema : Type 0 where
  pub name : String
  pub index_type : IndexType
  pub case_sensitive : Option Bool

pub record IndexSchema : Type 0 where
  pub id : Option ℕ
  pub properties : List IndexPropertySchema
  pub unique : Bool
  pub replace : Bool

pub record LinkSchema : Type 0 where
  pub id : Option ℕ
  pub backlink_id : Option ℕ
  pub name : String
  pub target_col : String

pub record CollectionSchema : Type 0 where
  pub id : Option ℕ
  pub name : String
  pub id_property : String
  pub properties : List PropertySchema
  pub indexes : List IndexSchema
  pub links : List LinkSchema

-- `if condition { schema_error(message)?; }`.
abbrev pub refuse : Bool → String → Result (Unit {0})
refuse true message = err (schema_error message)
refuse false message = ok tt

-- The loop over the properties: whether the id property is among them, and the properties without offsets.
unfoldable pub verify_properties :
    String → List PropertySchema → Result (Bool × List PropertySchema)
unfolding is_type
verify_properties id_property [] = ok (false, [])
verify_properties id_property (property ∷ properties) = do
  refuse (is_empty property.name) "Empty property names are not allowed"
  let is_id = eq_string property.name id_property
  refuse (is_id && not (is_type property.data_type DataType.long)) "Illegal ObjectId type"
  rest ← verify_properties id_property properties
  ok (is_id || rest.0, record property { offset = none } ∷ rest.1)

abbrev pub is_value : IndexType → Bool
is_value IndexType.value = true
is_value IndexType.hash = false
is_value IndexType.words = false

abbrev pub is_value_or_words : IndexType → Bool
is_value_or_words IndexType.value = true
is_value_or_words IndexType.hash = false
is_value_or_words IndexType.words = true

abbrev pub is_some {ℓ} : {A : Type ℓ} → Option A → Bool
is_some none = false
is_some (some a) = true

abbrev pub differs : Bool → Bool → Bool
differs true b = not b
differs false b = b

-- One property of an index, and the property that it names; `last` tells whether it is the last one.
unfoldable pub verify_named_property :
    Bool → IndexPropertySchema → PropertySchema → Result (Unit {0})
unfolding is_type is_dynamic
verify_named_property last ip property = do
  let is_string = is_type property.data_type DataType.string
  refuse (is_dynamic property.data_type && not is_string) "Illegal index data type"
  refuse (not is_string && not (is_value ip.index_type))
      "Non string indexes must use IndexType::Value"
  refuse (differs is_string (is_some ip.case_sensitive))
      "Only String indexes must have case sensitivity."
  refuse (is_value_or_words ip.index_type && not last)
      "Value and word string indexes must only be at the end of a composite index."

unfoldable pub verify_index_property :
    List PropertySchema → Bool → IndexPropertySchema → Result (Unit {0})
unfolding find verify_named_property
verify_index_property properties last ip = elim (find (λ p. eq_string p.name ip.name) properties) [
  | none ↦ err (schema_error "Index property does not exist")
  | some property ↦ verify_named_property last ip property
]

unfoldable pub verify_index_properties :
    List PropertySchema → List IndexPropertySchema → Result (Unit {0})
unfolding verify_index_property
verify_index_properties properties [] = ok tt
verify_index_properties properties (ip ∷ []) = verify_index_property properties true ip
verify_index_properties properties (ip ∷ next ∷ ips) = do
  verify_index_property properties false ip
  verify_index_properties properties (next ∷ ips)

unfoldable pub verify_index : List PropertySchema → IndexSchema → Result (Unit {0})
unfolding verify_index_properties
verify_index properties index = do
  refuse (length index.properties == 0) "At least one property needs to be added to a valid index"
  refuse (ltb 3 (length index.properties))
      "No more than three properties may be used as a composite index"
  verify_index_properties properties index.properties

unfoldable pub verify_indexes : List PropertySchema → List IndexSchema → Result (Unit {0})
unfolding verify_index
verify_indexes properties [] = ok tt
verify_indexes properties (index ∷ indexes) = do
  verify_index properties index
  verify_indexes properties indexes

unfoldable pub verify_links : List LinkSchema → Result (Unit {0})
verify_links [] = ok tt
verify_links (link ∷ links) = do
  refuse (is_empty link.name) "Empty link names are not allowed"
  verify_links links

-- The schema comes back with the offsets removed.
unfoldable pub verify : CollectionSchema → Result CollectionSchema
unfolding verify_properties verify_indexes verify_links count_unique
verify col = do
  refuse (is_empty col.name) "Empty collection names are not allowed"
  let names = map (λ p. p.name) col.properties ++ map (λ l. l.name) col.links
  refuse (ltb (count_unique [] names) (length col.properties + length col.links))
      "Duplicate property or link name"
  verified ← verify_properties col.id_property col.properties
  refuse (not (verified.0)) "Unknown ObjectId property"
  verify_indexes (verified.1) col.indexes
  verify_links col.links
  ok (record col { properties = verified.1 })
