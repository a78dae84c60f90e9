-- ===== src/Samples/Builders.antt =====
-- Queries that are built, and watchers that come and go.
use isar_core.Prelude.{◌≡◌, refl, ℕ, Bool, true, false, List, none, some, [], ◌∷◌, length, ◌+◌}
use isar_core.Prelude.Int.{ℤ, pos}
use isar_core.Error.{ok}
use isar_core.Lmdb.IntKey.{verify_id}
use isar_core.Object.DataType.{DataType}
use isar_core.Object.IsarObject.{IsarObject}
use isar_core.Index.Hashing.{Hashing, Unicode}
use isar_core.Collection.{IsarCollection}
use isar_core.Query.Sort.{Sort}
use isar_core.Query.Filter.{static_cond}
use isar_core.Query.QueryBuilder
use isar_core.Query.QueryBuilder.{
  QueryBuilder, clauses_of, add_id_where_clause, set_filter, build, matches_any, matches_wc_filter,
}
use isar_core.Query.QueryBuilder.Clauses.{
  add_ranges, in_ranges, matches_wc_filter-build, matches_wc_filter-add_ranges,
}
use isar_core.Prelude.Bytes.{from_le_bytes}
use isar_core.Object.ObjectInfo.{Property}
use isar_core.Object.IsarObject.{read_long}
use isar_core.Link.{Link}
use isar_core.Query.Filter.{Filter, not_cond, link_cond}
use isar_core.Query.Filter.Connectives.{holds, LeavesAnswer}
use isar_core.Watch.{IsarCollectionWatchers}
use isar_core.Watch.Watchers.{
  add_watcher, remove_watcher, add_object_watcher, remove_object_watcher, add_query_watcher,
  remove_query_watcher, watchers_of,
}
use isar_core.Watch.Watchers.Removed.{remove-add}
use isar_core.Samples.Database.{documented}

abbrev ascii : Unicode
ascii = record { to_lowercase = λ s. s; unicode_words = λ s. s ∷ []; unique = λ words. words }

abbrev hashing : Hashing
hashing = record {
  State = ℕ;
  default = 0;
  write_u8 = λ b n. b + n;
  write_i32 = λ z n. n;
  write_i64 = λ z n. n;
  write_usize = λ size n. size + n;
  write = λ bytes n. length bytes + n;
  finish = λ n. n;
  wyhash = λ bytes seed. length bytes + seed;
}

abbrev object : IsarObject
object = record { bytes = 3 ∷ 0 ∷ 7 ∷ []; static_size = 3 }

abbrev persons : IsarCollection
persons = record {
  id = 1;
  name = "persons";
  object_info = record {
    id_property = record { data_type = DataType.long; offset = 2 };
    properties = [];
    static_size = 10;
  };
  indexes = [];
  links = [];
  backlinks = [];
  oid_counter = pos 3;
}

-- An empty range, added after one from 1 to 4.
abbrev ranges : List (ℤ × ℤ × Sort)
ranges = (pos 9, pos 7, Sort.descending) ∷ (pos 1, pos 4, Sort.ascending) ∷ []

in_first : in_ranges (pos 3) ranges ≡ true
in_first = refl

matches_wc_filter-add_ranges_example :
    matches_wc_filter ascii hashing documented 9
      (build (add_ranges ranges (QueryBuilder.new persons)))
      (pos 3)
      object
    ≡ ok true
matches_wc_filter-add_ranges_example =
    matches_wc_filter-add_ranges ascii hashing (pos 3) object documented 9 persons
      (pos 9, pos 7, Sort.descending) ((pos 1, pos 4, Sort.ascending) ∷ [])

three_valid : verify_id (pos 3) ≡ ok tt
unfolding verify_id
three_valid = refl

abbrev unfiltered : QueryBuilder
unfiltered = record {
  collection = persons;
  where_clauses = none;
  filter = none;
  sort = [];
  distinct = [];
  offset = 0;
  limit = 10;
}

abbrev knows : Link
knows = record { id = 10; backlink_id = 11; col_id = 1; target_col_id = 1 }

abbrev oid_property : Property
oid_property = record { data_type = DataType.long; offset = 2 }

abbrev person : IsarObject
person = record { bytes = 10 ∷ 0 ∷ 3 ∷ 0 ∷ 0 ∷ 0 ∷ 0 ∷ 0 ∷ 0 ∷ 0 ∷ []; static_size = 10 }

oid_read : read_long person oid_property ≡ ok (pos 3)
unfolding read_long from_le_bytes
oid_read = refl

abbrev leaf : Filter → Bool
leaf filter = false

matches_wc_filter-build_example :
    (matches_wc_filter ascii hashing documented 9
        (build (set_filter unfiltered (not_cond (static_cond true))))
        (pos 3)
        person
      ≡ ok (holds leaf (not_cond (static_cond true))))
    × (matches_wc_filter ascii hashing documented 9
          (build (set_filter unfiltered (link_cond knows oid_property (static_cond false))))
          (pos 3)
          person
        ≡ ok true)
    × (matches_wc_filter ascii hashing documented 9 (build unfiltered) (pos 3) person ≡ ok true)
unfolding LeavesAnswer
matches_wc_filter-build_example =
    matches_wc_filter-build ascii hashing (pos 3) person documented 9 unfiltered leaf
      (not_cond (static_cond true)) (static_cond false) knows oid_property (pos 3) refl three_valid
      tt oid_read

abbrev watched : IsarCollectionWatchers ℕ
watched = record {
  watchers = 1 ∷ 2 ∷ [];
  object_watchers = λ oid. some (3 ∷ []);
  query_watchers = (7, 4) ∷ [];
}

remove-add_example :
    (remove_watcher (add_watcher watched 5) 5 ≡ ok watched)
    × (remove_query_watcher (add_query_watcher watched 5 8) 5 ≡ ok watched)
    × ((after : IsarCollectionWatchers ℕ) × (remove_object_watcher
            (add_object_watcher watched 5 (pos 6))
            (pos 6)
            5
          ≡ ok after)
        × ((other : ℤ) → watchers_of (after.object_watchers other) ≡ watchers_of (some (3 ∷ []))))
remove-add_example = remove-add watched 5 (pos 6) 8 refl refl refl
