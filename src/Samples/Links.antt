-- ===== src/Samples/Links.antt =====
-- A link from the objects of one collection to those of another.
use isar_core.Prelude.{Bool, ◌≡◌, refl, arith, ◌&&◌, ◌||◌, true, false, not, [], ◌∷◌}
use isar_core.Prelude.Int.{ℤ, pos}
use isar_core.Error.{ok}
use isar_core.Lmdb.IntKey.{verify_id}
use isar_core.Lmdb.IntKey.Same.{IsId, key_bytes}
use isar_core.Lmdb.Cursor.{Cursor}
use isar_core.Lmdb.Cursor.Documented.{entries, rewind, has, place}
use isar_core.Link.{Link, to_backlink, create, delete}
use isar_core.Link.Paired.{
  IsLink, IsPaired, linked, backlinked, is_pair, link_entry, bl_entry, same-link, same-backlink,
  same-link_backlink, same-backlink_link,
}
use isar_core.Link.Create.{create-IsPaired, both_exist}
use isar_core.Link.Delete.{delete-IsPaired}
use isar_core.Samples.Database.{
  compare_ints, documented, documented-IsDocumented, documented-StoresPairs,
}

abbrev friends : Link
friends = record { id = 10; backlink_id = 11; col_id = 1; target_col_id = 2 }

friends-IsLink : IsLink friends
friends-IsLink = record {
  id_bound = omega arith;
  backlink_id_bound = omega arith;
  col_id_bound = omega arith;
  target_col_id_bound = omega arith;
  distinct = refl;
}

five_valid : IsId (pos 5)
unfolding verify_id
five_valid = refl

seven_valid : IsId (pos 7)
unfolding verify_id
seven_valid = refl

abbrev objects : Cursor
objects = record {
  cursor = place [] ((key_bytes 1 (pos 5), []) ∷ (key_bytes 2 (pos 7), []) ∷ []);
  write = true;
}

abbrev no_links : Cursor
no_links = record { cursor = place [] []; write = true }

no_links-IsPaired : IsPaired friends (entries (no_links.cursor))
unfolding entries rewind linked backlinked has
no_links-IsPaired oid target_oid v w = refl

abbrev one_link : Cursor
one_link = record {
  cursor = place [] (link_entry friends (pos 5) (pos 7) ∷ bl_entry friends (pos 5) (pos 7) ∷ []);
  write = true;
}

one_link-IsPaired : IsPaired friends (entries (one_link.cursor))
unfolding entries rewind linked backlinked to_backlink has
one_link-IsPaired o t v w =
    rw
      (
        same-link friends friends-IsLink o t (pos 5) (pos 7) v w five_valid seven_valid,
        same-link_backlink friends friends-IsLink o t (pos 5) (pos 7) v w five_valid seven_valid,
        same-backlink friends friends-IsLink o t (pos 5) (pos 7) v w five_valid seven_valid,
        same-backlink_link friends friends-IsLink o t (pos 5) (pos 7) v w five_valid seven_valid,
      )
      (by_test (is_pair o t (pos 5) (pos 7)))
  where
    by_test : (b : Bool) → (b || (false || false)) ≡ (false || (b || false))
    by_test true = refl
    by_test false = refl

create-IsPaired_example :
    (data' : Cursor) × (after : Cursor) × (create documented friends
        (pos 5)
        (pos 7)
        objects
        no_links
      ≡ ok (
        both_exist compare_ints friends (pos 5) (pos 7) (entries (objects.cursor)),
        data',
        after,
      ))
    × IsPaired friends (entries after.cursor)
    × ((o t : ℤ)
        → IsId o
        → IsId t
        → linked friends (entries after.cursor) o t ≡ (
            (both_exist compare_ints friends (pos 5) (pos 7) (entries (objects.cursor))
              && is_pair o t (pos 5) (pos 7))
            || linked friends (entries (no_links.cursor)) o t))
create-IsPaired_example =
    create-IsPaired compare_ints documented documented-IsDocumented documented-StoresPairs friends
      friends-IsLink (pos 5) (pos 7) five_valid seven_valid objects no_links refl no_links-IsPaired

delete-IsPaired_example :
    (after : Cursor) × (delete documented friends (pos 5) (pos 7) one_link
      ≡ ok (linked friends (entries (one_link.cursor)) (pos 5) (pos 7), after))
    × IsPaired friends (entries after.cursor)
    × ((o t : ℤ)
        → IsId o
        → IsId t
        → linked friends (entries after.cursor) o t
          ≡ (not (is_pair (pos 5) (pos 7) o t) && linked friends (entries (one_link.cursor)) o t))
delete-IsPaired_example =
    delete-IsPaired compare_ints documented documented-IsDocumented friends friends-IsLink (pos 5)
      (pos 7) five_valid seven_valid one_link refl one_link-IsPaired
