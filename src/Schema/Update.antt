-- ===== src/Schema/Update.antt =====
-- src/schema/collection_schema.rs: the schema of a collection takes the ids and offsets of the stored one, and
-- gets new ids and offsets for what is new. `panic` is an `unwrap`.
pub mod Offsets
use Prim.Native.String.{String}
use isar_core.Prelude.{
  ℕ, zero, suc, ◌+◌, Bool, true, false, not, ◌&&◌, ◌||◌, ltb, ◌==◌, if◌then◌else◌, Option, none,
  some, List, [], ◌∷◌, ◌++◌, map, length,
}
use Prim.Native.Nat.{max}
use isar_core.Error.{Result, ok, err, panic, ◌>>=◌, ◌>>◌, assert, unwrap, schema_error}
use isar_core.Object.DataType.{DataType, is_type, get_static_size}
use isar_core.Index.Types.{IndexType}
use isar_core.Query.Execute.{contains}
use isar_core.Schema.Names.{eq_string, find, count_unique}
use isar_core.Schema.CollectionSchema.{
  PropertySchema, IndexPropertySchema, IndexSchema, LinkSchema, CollectionSchema, verify,
}

-- The end of the property that reaches farthest, from `acc` on.
unfoldable pub max_end : ℕ → List PropertySchema → Result ℕ
unfolding get_static_size
max_end acc [] = ok acc
max_end acc (p ∷ properties) = do
  offset ← unwrap p.offset
  max_end (max acc (offset + get_static_size p.data_type)) properties

-- Without properties it is the size of the static size itself.
unfoldable pub find_next_offset : List PropertySchema → Result ℕ
unfolding max_end
find_next_offset [] = ok 2
find_next_offset (p ∷ properties) = max_end 0 (p ∷ properties)

-- The loop over the properties, with the next offset. The type of a stored property is not looked at.
unfoldable pub assign_offsets : List PropertySchema → ℕ → List PropertySchema → List PropertySchema
unfolding find get_static_size
assign_offsets existing next_offset [] = []
assign_offsets existing next_offset (p ∷ properties) =
    elim (find (λ i. eq_string i.name p.name) existing) [
      | some e ↦ record p { offset = e.offset } ∷ assign_offsets existing next_offset properties
      | none ↦
          record p { offset = some next_offset }
          ∷ assign_offsets existing (next_offset + get_static_size p.data_type) properties
    ]

abbrev eq_bool : Bool → Bool → Bool
eq_bool true b = b
eq_bool false b = not b

abbrev eq_index_type : IndexType → IndexType → Bool
eq_index_type IndexType.value IndexType.value = true
eq_index_type IndexType.hash IndexType.hash = true
eq_index_type IndexType.words IndexType.words = true
eq_index_type _ _ = false

abbrev eq_case : Option Bool → Option Bool → Bool
eq_case none none = true
eq_case (some a) (some b) = eq_bool a b
eq_case _ _ = false

abbrev eq_offset : Option ℕ → Option ℕ → Bool
eq_offset none none = true
eq_offset (some a) (some b) = a == b
eq_offset _ _ = false

-- The derived `==`.
unfoldable pub eq_index_property : IndexPropertySchema → IndexPropertySchema → Bool
eq_index_property a b =
    eq_string a.name b.name
    && eq_index_type a.index_type b.index_type
    && eq_case a.case_sensitive b.case_sensitive

unfoldable pub eq_property : PropertySchema → PropertySchema → Bool
unfolding is_type
eq_property a b =
    eq_string a.name b.name && is_type a.data_type b.data_type && eq_offset a.offset b.offset

-- The loop over two lists of index properties of one length.
unfoldable pub check_properties_equal :
    List IndexPropertySchema
    → List PropertySchema
    → List IndexPropertySchema
    → List PropertySchema
    → Result Bool
unfolding eq_index_property eq_property find
check_properties_equal [] properties1 ips2 properties2 = ok true
check_properties_equal (ip1 ∷ ips1) properties1 [] properties2 = ok true
check_properties_equal (ip1 ∷ ips1) properties1 (ip2 ∷ ips2) properties2 =
    if not (eq_index_property ip1 ip2) then ok false else (do
      p1 ← unwrap (find (λ p. eq_string p.name ip1.name) properties1)
      p2 ← unwrap (find (λ p. eq_string p.name ip2.name) properties2)
      if not (eq_property p1 p2)
          then ok false
          else check_properties_equal ips1 properties1 ips2 properties2)

-- `replace` is not compared.
unfoldable pub check_indexes_equal :
    IndexSchema → List PropertySchema → IndexSchema → List PropertySchema → Result Bool
unfolding check_properties_equal
check_indexes_equal index1 properties1 index2 properties2 =
    if not (eq_bool index1.unique index2.unique)
      || not (length index1.properties == length index2.properties)
    then ok false
    else check_properties_equal index1.properties properties1 index2.properties properties2

unfoldable pub find_index :
    IndexSchema
    → List PropertySchema
    → List IndexSchema
    → List PropertySchema
    → Result (Option IndexSchema)
unfolding check_indexes_equal
find_index index properties [] existing_properties = ok none
find_index index properties (i ∷ existing) existing_properties = do
  equal ← check_indexes_equal index properties i existing_properties
  if equal then ok (some i) else find_index index properties existing existing_properties

-- `existing_col.map_or(&[], …)`.
abbrev existing_list : {A : Type 0} → (CollectionSchema → List A) → Option CollectionSchema → List A
existing_list field none = []
existing_list field (some e) = field e

-- `get_id` makes an id, over the state `S` of what makes them.
module _ {S : Type 0} (get_id : S → Result (ℕ × S)) where
  -- The id of an index, from the stored one.
  unfoldable pub index_id : Option IndexSchema → S → Result (Option ℕ × S)
  index_id (some i) s = ok (i.id, s)
  index_id none s = do made ← get_id s; ok (some (made.0), made.1)

  -- A link with its ids, from the stored one.
  unfoldable pub link_ids : LinkSchema → Option LinkSchema → S → Result (LinkSchema × S)
  link_ids link (some l) s = ok (record link { id = l.id; backlink_id = l.backlink_id }, s)
  link_ids link none s = do
    id ← get_id s
    backlink_id ← get_id (id.1)
    ok (record link { id = some (id.0); backlink_id = some (backlink_id.0) }, backlink_id.1)

  unfoldable pub update_indexes :
      List PropertySchema
      → List IndexSchema
      → List PropertySchema
      → List IndexSchema
      → S
      → Result (List IndexSchema × S)
  unfolding find_index index_id
  update_indexes properties existing existing_properties [] s = ok ([], s)
  update_indexes properties existing existing_properties (index ∷ indexes) s = do
    found ← find_index index properties existing existing_properties
    named ← index_id found s
    rest ← update_indexes properties existing existing_properties indexes (named.1)
    ok (record index { id = named.0 } ∷ rest.0, rest.1)

  unfoldable pub update_links : List LinkSchema → List LinkSchema → S → Result (List LinkSchema × S)
  unfolding find link_ids
  update_links existing [] s = ok ([], s)
  update_links existing (link ∷ links) s = do
    named ←
        link_ids link
          (find (λ l. eq_string l.name link.name && eq_string l.target_col link.target_col)
            existing)
          s
    rest ← update_links existing links (named.1)
    ok (named.0 ∷ rest.0, rest.1)

  -- The id of the collection: that of the stored one, whose id property must be the same.
  unfoldable pub update_id : CollectionSchema → Option CollectionSchema → S → Result (Option ℕ × S)
  update_id col none s = do made ← get_id s; ok (some (made.0), made.1)
  update_id col (some existing) s =
      if not (eq_string existing.id_property col.id_property)
      then err (schema_error "The id property must not change between versions.")
      else ok (existing.id, s)

  unfoldable pub update_with_existing_collection :
      CollectionSchema → Option CollectionSchema → S → Result (CollectionSchema × S)
  unfolding update_id find_next_offset assign_offsets update_indexes update_links
  update_with_existing_collection col existing_col s = do
    named ← update_id col existing_col s
    let existing_properties = existing_list (λ e. e.properties) existing_col
    next_offset ← find_next_offset existing_properties
    let properties = assign_offsets existing_properties next_offset col.properties
    indexed ←
        update_indexes properties (existing_list (λ e. e.indexes) existing_col) existing_properties
          col.indexes (named.1)
    linked ← update_links (existing_list (λ e. e.links) existing_col) col.links (indexed.1)
    ok (
      record col { id = named.0; properties = properties; indexes = indexed.0; links = linked.0 },
      linked.1,
    )
