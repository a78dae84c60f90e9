-- ===== src/Samples/Schemas.antt =====
-- A schema that adds a property, an index on two strings, drawn ids, and a link to another collection.
use isar_core.Prelude.{
  ℕ, ◌+◌, ◌≤◌, ◌≡◌, refl, arith, true, false, some, none, List, [], ◌∷◌, length, All, Bool, ◌&&◌,
  ◌||◌, any,
}
use isar_core.Prelude.Int.{pos}
use isar_core.Prelude.Bytes.{to_le_bytes, compare_bytes}
use isar_core.Error.{ok, err, db_corrupted}
use isar_core.Lmdb.IntKey
use isar_core.Lmdb.IntKey.Same.{key_bytes}
use isar_core.Lmdb.Cursor.{Cursor}
use isar_core.Lmdb.Cursor.Documented.{entries, rewind, has, place, same_bytes}
use isar_core.Object.DataType.{DataType, is_type, ordinal, get_static_size, is_dynamic, is_static}
use isar_core.Index.Types.{IndexType}
use isar_core.Link
use isar_core.Link.{Link, delete_backlink}
use isar_core.Schema.Names.{find, count_unique}
use isar_core.Schema.CollectionSchema.{
  PropertySchema, IndexSchema, LinkSchema, verify_named_property, verify_index_property,
  verify_index_properties, verify_index, verify_properties, verify_indexes, verify_links, verify,
  CollectionSchema,
}
use isar_core.Schema.CollectionSchema.Composite.{IsString, AllButLast, verify_index-AllButLast}
use isar_core.Schema.CollectionSchema.Verified.{AreDistinct, is_id_property, verify-AreDistinct}
use isar_core.Schema.Update.{max_end, find_next_offset, assign_offsets}
use isar_core.Schema.Update.Offsets.{
  stored, EndsBefore, NewInOrder, Kept, assign_offsets-EndsBefore,
}
use isar_core.Schema.Ids.Drawn.{Draws, get_id-Draws}
use isar_core.Schema.Build.{backlinks_of}
use isar_core.Schema.Build.Backlinks.{backlinks_of-fail}
use isar_core.Samples.Database.{compare_ints, documented, documented-IsDocumented}

abbrev id : PropertySchema
id = record { name = "id"; data_type = DataType.long; offset = some 2 }

abbrev name : PropertySchema
name = record { name = "name"; data_type = DataType.string; offset = some 10 }

abbrev city : PropertySchema
city = record { name = "city"; data_type = DataType.string; offset = none }

abbrev age : PropertySchema
age = record { name = "age"; data_type = DataType.int; offset = none }

stored_next : find_next_offset (id ∷ name ∷ []) ≡ ok 18
unfolding find_next_offset max_end get_static_size
stored_next = refl

laid_out :
    assign_offsets (id ∷ name ∷ []) 18 (age ∷ name ∷ city ∷ [])
    ≡ record age { offset = some 18 } ∷ name ∷ record city { offset = some 22 } ∷ []
unfolding assign_offsets find get_static_size
laid_out = refl

assign_offsets-EndsBefore_example :
    All
      (λ (q : PropertySchema).
        stored (id ∷ name ∷ []) q ≡ none
        → All (λ (p : PropertySchema). EndsBefore p q) (id ∷ name ∷ []))
      (assign_offsets (id ∷ name ∷ []) 18 (age ∷ name ∷ city ∷ []))
    × NewInOrder (id ∷ name ∷ []) (assign_offsets (id ∷ name ∷ []) 18 (age ∷ name ∷ city ∷ []))
    × Kept (id ∷ name ∷ []) (assign_offsets (id ∷ name ∷ []) 18 (age ∷ name ∷ city ∷ []))
assign_offsets-EndsBefore_example =
    assign_offsets-EndsBefore (id ∷ name ∷ []) 18 (age ∷ name ∷ city ∷ []) stored_next

abbrev by_name_and_city : IndexSchema
by_name_and_city = record {
  id = none;
  properties =
      record { name = "name"; index_type = IndexType.hash; case_sensitive = some true }
      ∷ record { name = "city"; index_type = IndexType.value; case_sensitive = some false }
      ∷ [];
  unique = false;
  replace = false;
}

by_name_and_city_valid : verify_index (id ∷ name ∷ city ∷ []) by_name_and_city ≡ ok tt
unfolding verify_index verify_index_properties verify_index_property verify_named_property find
    is_type ordinal is_dynamic is_static
by_name_and_city_valid = refl

verify_index-AllButLast_example :
    (1 ≤ length (by_name_and_city.properties))
    × (length (by_name_and_city.properties) ≤ 3)
    × AllButLast
        (λ ip. (ip.index_type ≡ IndexType.hash) × IsString (id ∷ name ∷ city ∷ []) ip)
        by_name_and_city.properties
verify_index-AllButLast_example =
    verify_index-AllButLast (id ∷ name ∷ city ∷ []) by_name_and_city by_name_and_city_valid

-- The numbers 0, 3, 6, … of which 0 and 3 are in use.
abbrev random : ℕ → ℕ
random n = n + n + n

get_id-Draws_example : Draws random 5 (0 ∷ 3 ∷ []) 0 2
get_id-Draws_example = get_id-Draws random 5 (0 ∷ 3 ∷ []) 0 2 (omega arith) refl

abbrev friends : LinkSchema
friends = record { id = some 10; backlink_id = some 11; name = "friends"; target_col = "persons" }

abbrev people : CollectionSchema
people = record {
  id = none;
  name = "people";
  id_property = "id";
  properties = id ∷ name ∷ city ∷ [];
  indexes = by_name_and_city ∷ [];
  links = friends ∷ [];
}

people_verified :
    verify people
    ≡ ok (record people {
      properties = record id { offset = none } ∷ record name { offset = none } ∷ city ∷ [];
    })
unfolding verify verify_properties verify_indexes verify_index verify_index_properties
    verify_index_property verify_named_property verify_links count_unique find is_type ordinal
    is_dynamic is_static
people_verified = refl

verify-AreDistinct_example :
    AreDistinct [] ("id" ∷ "name" ∷ "city" ∷ "friends" ∷ [])
    × (any (is_id_property "id") (id ∷ name ∷ city ∷ []) ≡ true)
verify-AreDistinct_example = verify-AreDistinct people people_verified

-- The object 5 of the collection 1 is linked to the object 7 of the collection 2.
abbrev links : Cursor
links = record {
  cursor = place [] (
      (key_bytes 10 (pos 5), key_bytes 2 (pos 7))
      ∷ (key_bytes 11 (pos 7), key_bytes 1 (pos 5))
      ∷ []);
  write = true;
}

abbrev made : List Link
made = record { id = 11; backlink_id = 10; col_id = 1; target_col_id = 2 } ∷ []

friend_link : backlinks_of (some 2) "persons" (some 1) (friends ∷ []) ≡ ok made
unfolding backlinks_of Link.new
friend_link = refl

no_entry :
    (id : ℕ) → has (key_bytes id (pos 5), key_bytes 1 (pos 7)) (entries (links.cursor)) ≡ false
unfolding has entries rewind IntKey.as_bytes IntKey.new to_le_bytes compare_bytes
no_entry id =
    by_keys (same_bytes (key_bytes id (pos 5)) (key_bytes 10 (pos 5)))
      (same_bytes (key_bytes id (pos 5)) (key_bytes 11 (pos 7)))
  where
    by_keys : (a b : Bool) → ((a && false) || ((b && false) || false)) ≡ false
    by_keys true true = refl
    by_keys true false = refl
    by_keys false true = refl
    by_keys false false = refl

backlinks_of-fail_example :
    All
      (λ (b : Link).
        delete_backlink documented b (pos 7) (pos 5) links
        ≡ err (db_corrupted "Backlink does not exist"))
      made
backlinks_of-fail_example =
    backlinks_of-fail compare_ints documented documented-IsDocumented (some 2) "persons" 1
      (friends ∷ []) made (pos 5) (pos 7) links friend_link no_entry
