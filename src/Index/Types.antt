-- ===== src/Index/Types.antt =====
-- src/index/mod.rs: an index and its properties.
use isar_core.Prelude.{ℕ, Bool, true, false, Option, List, [], ◌∷◌}
use isar_core.Prelude.Bytes.{Bytes, to_be_bytes}
use isar_core.Error.{Result, ok, panic}
use isar_core.Object.ObjectInfo.{Property}

pub data IndexType : Type 0 where
  value hash words : IndexType

pub record IndexProperty : Type 0 where
  pub property : Property
  pub index_type : IndexType
  pub case_sensitive : Option Bool

pub record Index : Type 0 where
  pub id : ℕ
  pub col_id : ℕ
  pub properties : List IndexProperty
  pub unique : Bool
  pub replace : Bool

abbrev pub max_string_index_size : ℕ
max_string_index_size = 1024

unfoldable pub get_prefix : Index → Bytes
get_prefix index = to_be_bytes 2 index.id

abbrev is_words : IndexType → Bool
is_words words = true
is_words _ = false

-- `first().unwrap()` panics on an index with no properties.
unfoldable pub multiple : Index → Result Bool
multiple index = elim (index.properties) [ [] ↦ panic | ip ∷ _ ↦ ok (is_words ip.index_type) ]
