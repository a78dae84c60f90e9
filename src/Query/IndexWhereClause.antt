-- ===== src/Query/IndexWhereClause.antt =====
-- src/query/index_where_clause.rs: a range of keys of an index.
pub mod Exclude
pub mod Iter
pub mod Range
use isar_core.Prelude.{
  ℕ, zero, suc, ◌+◌, ◌-◌, ◌*◌, ◌^◌, ◌≤◌, ◌<◌, ◌≡◌, refl, sym, ap, ◌∙◌, ◌⊎◌, ◌↔◌, inl, inr, arith,
  compare, Ordering, reverse, is_lt, is_le, is_eq,
}
use isar_core.Prelude.{
  Bool, true, false, not, ◌&&◌, ◌||◌, ltb, leb, ◌==◌, if◌then◌else◌, Option, none, some, List, [],
  ◌∷◌, ◌++◌, map, length, take, drop, get_elem?, All, Bool-cases, Option-cases,
}
use isar_core.Prelude.Bytes.{Bytes}
use isar_core.Error.{Result, ok, err, panic, ◌>>=◌, illegal_arg}
use isar_core.Object.DataType.{is_type}
use isar_core.Object.IsarObject.{IsarObject}
use isar_core.Lmdb.ByteKey
use isar_core.Index.Hashing.{Hashing, Unicode}
use isar_core.Index.Types.{IndexType, IndexProperty, Index}
use isar_core.Index.IndexKey.{IndexKey}
use isar_core.Index.CreateKeys.{create_keys}
use isar_core.Query.Sort.{Sort}

pub record IndexWhereClause : Type 0 where
  pub lower_key : Bytes
  pub upper_key : Bytes
  pub index : Index
  pub skip_duplicates : Bool
  pub sort : Sort

abbrev pub prefix_len : ℕ
prefix_len = 2

-- The derived `==` of indexes.
abbrev eq_bool : Bool → Bool → Bool
eq_bool true b = b
eq_bool false b = not b

abbrev eq_index_type : IndexType → IndexType → Bool
eq_index_type IndexType.value IndexType.value = true
eq_index_type IndexType.hash IndexType.hash = true
eq_index_type IndexType.words IndexType.words = true
eq_index_type _ _ = false

abbrev eq_case : Option Bool → Option Bool → Bool
eq_case none none = true
eq_case (some a) (some b) = eq_bool a b
eq_case _ _ = false

unfoldable pub eq_index_property : IndexProperty → IndexProperty → Bool
unfolding is_type
eq_index_property a b =
    is_type a.property.data_type b.property.data_type
    && (a.property.offset == b.property.offset)
    && eq_index_type a.index_type b.index_type
    && eq_case a.case_sensitive b.case_sensitive

unfoldable pub eq_index_properties : List IndexProperty → List IndexProperty → Bool
unfolding eq_index_property
eq_index_properties [] [] = true
eq_index_properties (a ∷ ps) (b ∷ qs) = eq_index_property a b && eq_index_properties ps qs
eq_index_properties _ _ = false

unfoldable pub eq_index : Index → Index → Bool
unfolding eq_index_properties
eq_index a b =
    (a.id == b.id)
    && (a.col_id == b.col_id)
    && eq_index_properties a.properties b.properties
    && eq_bool a.unique b.unique
    && eq_bool a.replace b.replace

unfoldable pub new : IndexKey → IndexKey → Bool → Sort → Result IndexWhereClause
unfolding eq_index
new lower upper skip_duplicates sort =
    if not (eq_index lower.index upper.index)
    then err (illegal_arg "Lower key index does not match upper key index")
    else ok (record {
      lower_key = lower.bytes;
      upper_key = upper.bytes;
      index = lower.index;
      skip_duplicates = skip_duplicates;
      sort = sort;
    })

unfoldable pub is_empty : IndexWhereClause → Bool
unfolding ByteKey.new ByteKey.cmp_bytes
is_empty wc = is_lt (reverse (ByteKey.cmp_bytes (ByteKey.new wc.lower_key) wc.upper_key))

-- `key >= lower_key && key <= upper_key`.
unfoldable pub in_range : IndexWhereClause → Bytes → Bool
unfolding ByteKey.new ByteKey.cmp_bytes
in_range wc key =
    is_le (reverse (ByteKey.cmp_bytes (ByteKey.new key) wc.lower_key))
    && is_le (ByteKey.cmp_bytes (ByteKey.new key) wc.upper_key)

-- The callback of `object_matches` on the keys: it stops at the first in range, and the last result
-- is kept.
unfoldable pub match_keys : IndexWhereClause → Bool → List Bytes → Bool
unfolding in_range
match_keys wc key_matches [] = key_matches
match_keys wc key_matches (key ∷ keys) =
    let rest = match_keys wc (in_range wc key) keys in if in_range wc key then true else rest

module _ (u : Unicode) (h : Hashing) where
  unfoldable pub object_matches : IndexWhereClause → IsarObject → Result Bool
  unfolding create_keys match_keys
  object_matches wc object = do
    keys ← create_keys u h wc.index object
    ok (match_keys wc false keys)

abbrev checked_add : ℕ → Option ℕ
checked_add b = if b == 255 then none else some (b + 1)

abbrev checked_sub : ℕ → Option ℕ
checked_sub zero = none
checked_sub (suc b) = some b

-- The loop `for i in (PREFIX_LEN..key.len()).rev()` over a key without its prefix: the last byte that
-- can be changed is.
unfoldable pub change_last : (ℕ → Option ℕ) → Bytes → Option Bytes
change_last step [] = none
change_last step (b ∷ bs) = elim (change_last step bs) [
  | some bs' ↦ some (b ∷ bs')
  | none ↦ elim (step b) [ none ↦ none | some b' ↦ some (b' ∷ bs) ]
]

unfoldable pub change_key : (ℕ → Option ℕ) → Bytes → Option Bytes
unfolding change_last
change_key step key = elim (change_last step (drop prefix_len key)) [
  | none ↦ none
  | some changed ↦ some (take prefix_len key ++ changed)
]

-- The clause as it is left, and the returned value.
unfoldable pub try_exclude_upper : Bool → IndexWhereClause → IndexWhereClause × Bool
unfolding change_key
try_exclude_upper true wc = (wc, true)
try_exclude_upper false wc = elim (change_key checked_sub wc.upper_key) [
  | none ↦ (wc, false)
  | some upper_key ↦ (record wc { upper_key = upper_key }, true)
]

unfoldable pub try_exclude : Bool → Bool → IndexWhereClause → IndexWhereClause × Bool
unfolding change_key try_exclude_upper
try_exclude true include_upper wc = try_exclude_upper include_upper wc
try_exclude false include_upper wc = elim (change_key checked_add wc.lower_key) [
  | none ↦ (wc, false)
  | some lower_key ↦ try_exclude_upper include_upper (record wc { lower_key = lower_key })
]
