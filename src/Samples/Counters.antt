-- ===== src/Samples/Counters.antt =====
-- Two objects that are put into an empty collection.
use isar_core.Prelude.{arith, ◌≡◌, refl, true, false, none, [], ◌∷◌, Bool, ◌⊎◌}
use isar_core.Prelude.Int.{pos}
use isar_core.Error.{ok}
use isar_core.Lmdb.IntKey.{verify_id}
use isar_core.Object.DataType.{DataType}
use isar_core.Object.ObjectInfo.{Property}
use isar_core.Object.IsarObject.{IsarObject}
use isar_core.Index.Hashing.{Unicode}
use isar_core.Query.Filter.{}
use isar_core.Query.Filter.Bounds.{}
use isar_core.Collection.{IsarCollection}
use isar_core.Collection.Counter.{Fresh, Exhausted, auto_increment-Fresh}
use isar_core.Samples.Database.{documented}
use isar_core.Prelude.{ℕ}
use isar_core.Prelude.Int.{ℤ}
use isar_core.Collection.Store.{
  Cursors, put_internal, delete_internal, create_index_entries, verify_object,
  register_object_change, register,
}
use isar_core.Collection.Counter.{Put, Puts}
use isar_core.Collection.{update_oid_counter}
use isar_core.Index.Hashing.{Hashing}
use isar_core.Prelude.{length, ◌+◌}
use isar_core.Object.IsarObject.{read_long}
use isar_core.Prelude.Bytes.{from_le_bytes, to_le_bytes}
use isar_core.Lmdb.Cursor.{Cursor, put, move_to}
use isar_core.Lmdb.Cursor.Documented.{place}
use isar_core.Lmdb.IntKey
use isar_core.Lmdb.IntKey.Same.{key_bytes}
use isar_core.Collection.{get_oid_property}
use isar_core.Collection.Store.{delete_index_entries}

abbrev ascii : Unicode
ascii = record { to_lowercase = λ s. s; unicode_words = λ s. s ∷ []; unique = λ words. words }

abbrev hashing : Hashing
hashing = record {
  State = ℕ;
  default = 0;
  write_u8 = λ b n. b + n;
  write_i32 = λ z n. n;
  write_i64 = λ z n. n;
  write_usize = λ size n. size + n;
  write = λ bytes n. length bytes + n;
  finish = λ n. n;
  wyhash = λ bytes seed. length bytes + seed;
}

abbrev oid_property : Property
oid_property = record { data_type = DataType.long; offset = 2 }

abbrev person : ℕ → IsarObject
person id = record { bytes = 10 ∷ 0 ∷ id ∷ 0 ∷ 0 ∷ 0 ∷ 0 ∷ 0 ∷ 0 ∷ 0 ∷ []; static_size = 10 }

abbrev persons : ℤ → IsarCollection
persons oid_counter = record {
  id = 1;
  name = "persons";
  object_info = record { id_property = oid_property; properties = []; static_size = 10 };
  indexes = [];
  links = [];
  backlinks = [];
  oid_counter = oid_counter;
}

abbrev fresh_cursor : Cursor
fresh_cursor = record { cursor = place [] []; write = true }

abbrev cursors : Cursors ℕ
cursors = record {
  data_cursor = fresh_cursor;
  index = fresh_cursor;
  links = fresh_cursor;
  change_set = none;
}

abbrev never : ℕ → ℤ → IsarObject → Bool
never query oid object = false

-- The cursors after the put of the object 20.
abbrev after_twenty : Cursors ℕ
after_twenty = record {
  data_cursor = record {
    cursor = place [] ((key_bytes 1 (pos 20), (person 20).bytes) ∷ []);
    write = true;
  };
  index = fresh_cursor;
  links = fresh_cursor;
  change_set = none;
}

Put-first : Put never ascii hashing documented 9 (pos 20) (persons (pos 3)) (persons (pos 20))
unfolding put_internal read_long from_le_bytes verify_id delete_internal create_index_entries
    update_oid_counter put move_to register_object_change register verify_object documented
    IntKey.new get_oid_property delete_index_entries
Put-first = (person 20, cursors, after_twenty, refl, refl)

stored_seven :
    (cs' : Cursors ℕ) × (put_internal never ascii hashing documented 9
        (persons (pos 20))
        (person 7)
        after_twenty
      ≡ ok (persons (pos 20), cs'))
unfolding put_internal read_long from_le_bytes verify_id delete_internal create_index_entries
    update_oid_counter put move_to register_object_change register verify_object documented
    IntKey.new get_oid_property delete_index_entries to_le_bytes
stored_seven = (_, refl)

twenty_seven :
    Puts never ascii hashing documented 9 (pos 20 ∷ pos 7 ∷ []) (persons (pos 3)) (persons (pos 20))
unfolding read_long from_le_bytes get_oid_property
twenty_seven = (
  persons (pos 20),
  Put-first,
  (persons (pos 20), (person 7, after_twenty, stored_seven.0, refl, stored_seven.1), refl),
)

auto_increment-Fresh_example :
    Fresh (pos 20 ∷ pos 7 ∷ []) (persons (pos 3)) (persons (pos 20))
    ⊎ Exhausted (pos 20 ∷ pos 7 ∷ []) (persons (pos 3)) (persons (pos 20))
auto_increment-Fresh_example =
    auto_increment-Fresh never ascii hashing documented 9 (pos 20 ∷ pos 7 ∷ []) (persons (pos 3))
      (persons (pos 20)) twenty_seven (omega arith, omega arith)
