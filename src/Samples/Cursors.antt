-- ===== src/Samples/Cursors.antt =====
-- Iterations over a database of links.
use isar_core.Prelude.{
  ℕ, ◌≡◌, refl, arith, List, [], ◌∷◌, ◌++◌, length, true, false, is_le, is_eq, reverse, compare,
  ◌<◌, some,
}
use isar_core.Prelude.Int.{pos}
use isar_core.Prelude.Bytes.{Bytes, from_le_bytes, to_le_bytes}
use isar_core.Error.{ok}
use isar_core.Lmdb.IntKey
use isar_core.Lmdb.IntKey.{IntKey}
use isar_core.Lmdb.IntKey.Same.{key_bytes}
use isar_core.Lmdb.Keys.{int_key}
use isar_core.Lmdb.Cursor.{KeyVal, Cursor}
use isar_core.Lmdb.Cursor.Iter.{iter_between, iter_dups}
use isar_core.Lmdb.Cursor.Documented.{entries, rewind, place}
use isar_core.Lmdb.Cursor.Reads.{reading, answer_of, filter, drop_until}
use isar_core.Lmdb.Cursor.Skips.{visited}
use isar_core.Lmdb.Cursor.Range.{IsOrder, InOrder, Compares, in_range, iter_between-ascending}
use isar_core.Lmdb.Cursor.Dups.{run_from, for_each_dup, iter_dups-for_each_dup}
use isar_core.Query.Execute.{Callback, for_each}
use isar_core.Samples.Database.{compare_ints, documented, documented-IsDocumented}

compare_ints-IsOrder : IsOrder compare_ints
compare_ints-IsOrder = record {
  swap = λ a b. by_number (from_le_bytes a) (from_le_bytes b);
  trans = λ a b c h k. at_most (from_le_bytes a) (from_le_bytes b) (from_le_bytes c) h k;
}
  where
    by_number : (m n : ℕ) → compare n m ≡ reverse (compare m n)
    by_number m n = ground arith

    at_most :
        (m n o : ℕ)
        → is_le (compare m n) ≡ true
        → is_le (compare n o) ≡ true
        → is_le (compare m o) ≡ true
    at_most m n o h k = ground (arith, h, k)

abbrev key : ℕ → Bytes
key n = key_bytes 1 (pos n)

abbrev three : Cursor
three = record {
  cursor = place [] ((key 2, 0 ∷ []) ∷ (key 4, 1 ∷ []) ∷ (key 4, 2 ∷ []) ∷ (key 9, 3 ∷ []) ∷ []);
  write = false;
}

abbrev collect : Callback (List KeyVal) KeyVal
collect seen e = ok (true, seen ++ e ∷ [])

bounds_compare :
    int_key.cmp_bytes (IntKey.new 1 (pos 6)) (key 3) ≡ some (compare_ints (key 6) (key 3))
unfolding IntKey.cmp_bytes IntKey.as_bytes IntKey.new to_le_bytes from_le_bytes
bounds_compare = refl

three-Compares : Compares compare_ints (IntKey.new 1 (pos 6)) (entries (three.cursor))
unfolding entries rewind IntKey.cmp_bytes IntKey.as_bytes IntKey.new to_le_bytes from_le_bytes
three-Compares = (refl, (refl, (refl, (refl, tt))))

three_ordered : InOrder compare_ints (entries (three.cursor))
unfolding entries rewind IntKey.as_bytes IntKey.new to_le_bytes from_le_bytes
three_ordered = ((refl, (refl, (refl, tt))), ((refl, (refl, tt)), ((refl, tt), (tt, tt))))

three_fuel : length (entries (three.cursor)) < 9
unfolding entries rewind
three_fuel = omega arith

iter_between-ascending_example :
    answer_of (
      iter_between documented
        (reading collect)
        9
        (IntKey.new 1 (pos 3))
        (IntKey.new 1 (pos 6))
        true
        true
        three
        [])
    ≡ for_each collect []
        (visited true (filter (in_range compare_ints (key 3) (key 6)) (entries (three.cursor))))
iter_between-ascending_example =
    iter_between-ascending compare_ints compare_ints-IsOrder documented documented-IsDocumented
      collect true (IntKey.new 1 (pos 3)) (IntKey.new 1 (pos 6)) 9 three [] bounds_compare
      three-Compares three_ordered three_fuel

iter_dups-for_each_dup_example :
    answer_of (iter_dups documented (reading collect) 9 (IntKey.new 1 (pos 4)) three [])
    ≡ for_each_dup collect []
        (run_from (drop_until (λ e. is_eq (compare_ints (key 4) (e.0))) (entries (three.cursor))))
iter_dups-for_each_dup_example =
    iter_dups-for_each_dup compare_ints documented documented-IsDocumented collect
      (IntKey.new 1 (pos 4)) 9 three [] three_fuel
