-- ===== src/Query/Filter.antt =====
-- src/query/filter.rs: the conditions of a query, and their construction. A condition is a constructor
-- with the fields of its struct.
pub mod Evaluate
pub mod Connectives
pub mod Bounds
pub mod Lists
pub mod LinkCond
use isar_core.Prelude.{
  ℕ, ◌+◌, ◌-◌, ◌^◌, leb, ◌==◌, ◌&&◌, ◌||◌, Bool, true, false, not, any, if◌then◌else◌, Option, none,
  some, List, [], ◌∷◌, length, drop, is_le, is_eq,
}
use isar_core.Prelude.Int.{ℤ, leb_ℤ, eqb_ℤ}
use isar_core.Prelude.Bytes.{Bytes, compare_bytes}
use isar_core.Error.{
  Result, ok, err, panic, ◌>>=◌, ◌>>◌, unwrap, IsarError, illegal_arg, version_error,
}
use isar_core.Lmdb.Cursor.{Lmdb, Cursor}
use isar_core.Object.DataType.{DataType, is_type}
use isar_core.Object.ObjectInfo.{Property}
use isar_core.Object.Float.{float_le}
use isar_core.Object.IsarObject.{
  IsarObject, is_nan_f32, is_nan_f64, read_byte, read_int, read_long, read_float, read_double,
  read_string, read_byte_list, read_int_list, read_long_list, read_string_list,
}
use isar_core.Index.Hashing.{Unicode}
use isar_core.Link.{Link, iter}
use isar_core.Query.FastWildMatch.{fast_wild_match}
use isar_core.Query.Execute.{contains}

-- The bounds are the lower one, then the upper one; the flag of a string condition is `case_sensitive`.
mutual
  pub data Filter : Type 0 where
    byte_between : Property → ℕ → ℕ → Filter
    int_between long_between : Property → ℤ → ℤ → Filter
    float_between double_between : Property → ℕ → ℕ → Filter
    byte_list_contains : Property → ℕ → Filter
    int_list_contains long_list_contains : Property → ℤ → Filter
    string_between : Property → Option Bytes → Option Bytes → Bool → Filter
    string_starts_with string_ends_with string_matches : Property → Option Bytes → Bool → Filter
    string_list_contains : Property → Option Bytes → Bool → Filter
    and_cond or_cond : Filters → Filter
    not_cond : Filter → Filter
    static_cond : Bool → Filter
    link_cond : Link → Property → Filter → Filter

  pub data Filters : Type 0 where
    nil : Filters
    cons : Filter → Filters → Filters

-- The constructors of the crate check the type of the property.
unfoldable pub supported : DataType → Property → Filter → Result Filter
unfolding is_type
supported data_type property filter =
    if is_type property.data_type data_type
    then ok filter
    else err (illegal_arg "Property does not support this filter.")

unfoldable pub byte_between_filter : Property → ℕ → ℕ → Result Filter
unfolding supported
byte_between_filter p lower upper = supported DataType.byte p (byte_between p lower upper)

unfoldable pub int_between_filter : Property → ℤ → ℤ → Result Filter
unfolding supported
int_between_filter p lower upper = supported DataType.int p (int_between p lower upper)

unfoldable pub long_between_filter : Property → ℤ → ℤ → Result Filter
unfolding supported
long_between_filter p lower upper = supported DataType.long p (long_between p lower upper)

unfoldable pub float_between_filter : Property → ℕ → ℕ → Result Filter
unfolding supported
float_between_filter p lower upper = supported DataType.float p (float_between p lower upper)

unfoldable pub double_between_filter : Property → ℕ → ℕ → Result Filter
unfolding supported
double_between_filter p lower upper = supported DataType.double p (double_between p lower upper)

-- The types that the instances of the macro name are not those of lists.
unfoldable pub byte_list_contains_filter : Property → ℕ → Result Filter
unfolding supported
byte_list_contains_filter p value = supported DataType.byte p (byte_list_contains p value)

unfoldable pub int_list_contains_filter : Property → ℤ → Result Filter
unfolding supported
int_list_contains_filter p value = supported DataType.int p (int_list_contains p value)

unfoldable pub long_list_contains_filter : Property → ℤ → Result Filter
unfolding supported
long_list_contains_filter p value = supported DataType.long p (long_list_contains p value)

module _ (u : Unicode) where
  abbrev pub cased : Bool → Option Bytes → Option Bytes
  cased case_sensitive none = none
  cased case_sensitive (some s) = some (if case_sensitive then s else u.to_lowercase s)

  unfoldable pub string_between_filter :
      Property → Option Bytes → Option Bytes → Bool → Result Filter
  unfolding supported
  string_between_filter p lower upper case_sensitive =
      supported DataType.string p
        (string_between p (cased case_sensitive lower) (cased case_sensitive upper) case_sensitive)

  -- The instances of `string_filter_struct`, by the condition they make.
  unfoldable pub string_filter :
      (Property → Option Bytes → Bool → Filter) → Property → Option Bytes → Bool → Result Filter
  unfolding supported
  string_filter condition p value case_sensitive =
      supported DataType.string p (condition p (cased case_sensitive value) case_sensitive)

-- `HashSet::insert`.
abbrev insert : ℕ → List ℕ → List ℕ
insert id ids = if contains ids id then ids else id ∷ ids

-- The collections whose objects decide a filter. The filter of a link is not searched.
unfoldable mutual
  pub get_linked_collections : Filter → List ℕ → List ℕ
  get_linked_collections (and_cond filters) col_ids = get_all_linked_collections filters col_ids
  get_linked_collections (or_cond filters) col_ids = get_all_linked_collections filters col_ids
  get_linked_collections (not_cond filter) col_ids = get_linked_collections filter col_ids
  get_linked_collections (link_cond link id_property filter) col_ids =
      insert link.target_col_id col_ids
  get_linked_collections _ col_ids = col_ids

  pub get_all_linked_collections : Filters → List ℕ → List ℕ
  get_all_linked_collections nil col_ids = col_ids
  get_all_linked_collections (cons filter filters) col_ids =
      get_all_linked_collections filters (get_linked_collections filter col_ids)
