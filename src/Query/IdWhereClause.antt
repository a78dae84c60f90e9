-- ===== src/Query/IdWhereClause.antt =====
-- src/query/id_where_clause.rs: a range of ids of a collection.
pub mod Range
pub mod Iter
use isar_core.Prelude.{
  ℕ, zero, suc, ◌+◌, ◌-◌, ◌*◌, ◌^◌, ◌≤◌, ◌<◌, ◌≡◌, refl, sym, ap, ◌∙◌, ◌⊎◌, ◌↔◌, inl, inr, arith,
  compare, Ordering, reverse, is_lt, is_le, is_eq,
}
use isar_core.Prelude.{
  Bool, true, false, not, ◌&&◌, ◌||◌, ltb, leb, ◌==◌, if◌then◌else◌, Option, none, some, List, [],
  ◌∷◌, ◌++◌, map, length, any, take, drop, get_elem?, All, Bool-cases, Option-cases,
}
use isar_core.Prelude.Int.{ℤ, ltb_ℤ, leb_ℤ}
use isar_core.Query.Sort.{Sort}

pub record IdWhereClause : Type 0 where
  pub prefix : ℕ
  pub lower : ℤ
  pub upper : ℤ
  pub sort : Sort

-- The prefix is the id of the collection.
unfoldable pub new : ℕ → ℤ → ℤ → Sort → IdWhereClause
new col_id lower upper sort = record { prefix = col_id; lower = lower; upper = upper; sort = sort }

unfoldable pub is_empty : IdWhereClause → Bool
is_empty wc = ltb_ℤ wc.upper wc.lower

unfoldable pub id_matches : IdWhereClause → ℤ → Bool
id_matches wc oid = leb_ℤ wc.lower oid && leb_ℤ oid wc.upper
