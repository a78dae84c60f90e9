-- ===== src/Object/ObjectInfo.antt =====
-- src/object/isar_object.rs (`Property`) and src/object/object_info.rs: where the properties of a
-- collection stand in the static part of its objects.
use Prim.Native.String.{String}
use isar_core.Prelude.{ℕ, ◌+◌, List, [], ◌∷◌}
use isar_core.Object.DataType.{DataType, get_static_size}

pub record Property : Type 0 where
  pub data_type : DataType
  pub offset : ℕ

pub record ObjectInfo : Type 0 where
  pub id_property : Property
  pub properties : List (String × Property)
  pub static_size : ℕ

-- The end of the last property in the list.
unfoldable pub calculate_static_size : List (String × Property) → ℕ
unfolding get_static_size
calculate_static_size [] = 0
calculate_static_size ((name, p) ∷ []) = p.offset + get_static_size p.data_type
calculate_static_size (q ∷ p ∷ ps) = calculate_static_size (p ∷ ps)

unfoldable pub new : Property → List (String × Property) → ObjectInfo
unfolding calculate_static_size
new id_property properties = record {
  id_property = id_property;
  properties = properties;
  static_size = calculate_static_size properties;
}
