-- ===== src/Query/Sort.antt =====
-- src/query/mod.rs: the comparator by which `execute_sorted` sorts its results.
use isar_core.Prelude.{Ordering, reverse}
use isar_core.Prelude.{List, [], ◌∷◌}
use isar_core.Error.{Result, ok, ◌>>=◌}
use isar_core.Object.ObjectInfo.{Property}
use isar_core.Object.IsarObject.{IsarObject}
use isar_core.Object.IsarObject.Compare.{compare_property}

pub data Sort : Type 0 where
  ascending descending : Sort

unfoldable pub directed : Sort → Ordering → Ordering
directed ascending ord = ord
directed descending ord = reverse ord

-- The first property that tells the objects apart decides. `panic` is that of a read.
unfoldable pub compare_objects : List (Property × Sort) → IsarObject → IsarObject → Result Ordering
unfolding directed
compare_objects [] o1 o2 = ok Ordering.eq
compare_objects ((p, sort) ∷ rest) o1 o2 = do
  ord ← compare_property o1 o2 p
  elim ord [
    | Ordering.eq ↦ compare_objects rest o1 o2
    | Ordering.lt ↦ ok (directed sort Ordering.lt)
    | Ordering.gt ↦ ok (directed sort Ordering.gt)
  ]
