-- ===== src/Index/CreateKeys.antt =====
-- src/index/mod.rs: the keys of an object in an index.
pub mod Order
use isar_core.Prelude.{
  ℕ, Bool, true, false, Option, none, some, List, [], ◌∷◌, ◌==◌, if◌then◌else◌, get_elem?,
}
use isar_core.Prelude.Bytes.{Bytes}
use isar_core.Error.{Result, ok, err, panic, ◌>>=◌, unwrap}
use isar_core.Object.DataType.{DataType}
use isar_core.Object.IsarObject.{
  IsarObject, read_byte, read_int, read_float, read_long, read_double, read_string,
}
use isar_core.Index.Hashing.{Hashing, Unicode}
use isar_core.Index.Types.{IndexType, IndexProperty, Index, multiple}
use isar_core.Index.IndexKey
use isar_core.Index.IndexKey.{IndexKey, with_buffer}

module _ (u : Unicode) (h : Hashing) where
  -- One round of the loop in `create_single_key`. `panic` is `unimplemented!()`, an `unwrap`, or that
  -- of a read.
  unfoldable pub add_property : IsarObject → IndexKey → IndexProperty → Result IndexKey
  add_property object key ip = elim (ip.property.data_type) [
    | DataType.byte ↦ (do value ← read_byte object ip.property; ok (IndexKey.add_byte key value))
    | DataType.int ↦ (do value ← read_int object ip.property; ok (IndexKey.add_int key value))
    | DataType.long ↦ (do value ← read_long object ip.property; ok (IndexKey.add_long key value))
    | DataType.float ↦ (do value ← read_float object ip.property; ok (IndexKey.add_float key value))
    | DataType.double ↦ (do
      value ← read_double object ip.property
      ok (IndexKey.add_double key value))
    | DataType.string ↦ (do
      value ← read_string object ip.property
      elim (ip.index_type) [
        | IndexType.value ↦ (do
          case_sensitive ← unwrap ip.case_sensitive
          ok (IndexKey.add_string_value u h key value case_sensitive))
        | IndexType.hash ↦ (do
          case_sensitive ← unwrap ip.case_sensitive
          ok (IndexKey.add_string_hash u h key value case_sensitive))
        | IndexType.words ↦ panic
      ])
    | _ ↦ panic
  ]

  unfoldable pub add_properties : IsarObject → IndexKey → List IndexProperty → Result IndexKey
  unfolding add_property
  add_properties object key [] = ok key
  add_properties object key (ip ∷ properties) = do
    key' ← add_property object key ip
    add_properties object key' properties

  unfoldable pub create_single_key : Index → IsarObject → Bytes → Result Bytes
  unfolding add_properties with_buffer
  create_single_key index object buffer = do
    key ← add_properties object (with_buffer index buffer) index.properties
    ok (key.bytes)

  -- `get_string_with_case`, with the lowercase string of an index that ignores case.
  unfoldable pub get_string_with_case : IndexProperty → IsarObject → Result (Option Bytes)
  get_string_with_case ip object = do
    value ← read_string object ip.property
    elim value [
      | none ↦ ok none
      | some str ↦ (do
        case_sensitive ← unwrap ip.case_sensitive
        ok (some (if case_sensitive then str else u.to_lowercase str)))
    ]

  -- `create_word_keys` and `create_multiple_keys`: the words are keys as they are.
  unfoldable pub create_word_keys : Option Bytes → List Bytes
  create_word_keys none = []
  create_word_keys (some str) = u.unique (u.unicode_words str)

  unfoldable pub create_multiple_keys : Index → IsarObject → Result (List Bytes)
  unfolding get_string_with_case create_word_keys
  create_multiple_keys index object = elim (index.properties) [
    | [] ↦ panic
    | ip ∷ _ ↦ (do value ← get_string_with_case ip object; ok (create_word_keys value))
  ]

  -- The keys that `create_keys` calls back, in order.
  unfoldable pub create_keys : Index → IsarObject → Result (List Bytes)
  unfolding multiple create_multiple_keys create_single_key
  create_keys index object = do
    words ← multiple index
    if words
        then create_multiple_keys index object
        else (do bytes ← create_single_key index object []; ok (bytes ∷ []))
