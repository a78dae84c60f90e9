-- ===== src/Query/Filter/LinkCond.antt =====
-- src/query/filter.rs: `LinkCond::filter`.
use isar_core.Prelude.{ℕ, Bool}
use isar_core.Error.{Result, ok, ◌>>=◌}
use isar_core.Collection.{IsarCollection, get_link_backlink, get_oid_property}
use isar_core.Query.Filter.{Filter, link_cond}

-- The property of the id is that of the target collection.
link_filter : IsarCollection → IsarCollection → ℕ → Bool → Filter → Result Filter
unfolding get_link_backlink get_oid_property
link_filter collection target_collection link_index backlink filter = do
  link ← get_link_backlink collection link_index backlink
  ok (link_cond link (get_oid_property target_collection) filter)
