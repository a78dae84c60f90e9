-- ===== src/Query/IdWhereClause/Range.antt =====
-- A range of ids is the range of keys that its bounds make.
use isar_core.Prelude.{ℕ, ◌^◌, ◌<◌, ◌≡◌, refl, ap, ◌∙◌, arith, compare, Ordering, is_le}
use isar_core.Prelude.{Bool, true, false, ◌&&◌, Option, none, some}
use isar_core.Prelude.Int.{ℤ, leb_ℤ, compare_ℤ}
use isar_core.Prelude.Bytes.{then_compare}
use isar_core.Error.{ok}
use isar_core.Lmdb.IntKey
use isar_core.Lmdb.IntKey.{IntKey, verify_id}
use isar_core.Lmdb.IntKey.Order.{cmp_bytes-new}
use isar_core.Query.Sort.{Sort}
use isar_core.Query.IdWhereClause.{new, is_empty, id_matches}

-- The order by which LMDB keeps the stored keys.
abbrev at_most : Option Ordering → Bool
at_most none = false
at_most (some ord) = is_le ord

abbrev pub key_at_most : IntKey → IntKey → Bool
key_at_most a b = at_most (IntKey.cmp_bytes a (IntKey.as_bytes b))

key_at_most-new :
    (p : ℕ) (a b : ℤ)
    → p < 2 ^ 16
    → verify_id a ≡ ok tt
    → verify_id b ≡ ok tt
    → key_at_most (IntKey.new p a) (IntKey.new p b) ≡ leb_ℤ a b
key_at_most-new p a b hp ha hb =
    let same : at_most (some (then_compare (compare p p) (compare_ℤ a b))) ≡ leb_ℤ a b =
      ground arith in
    ap at_most (cmp_bytes-new p p a b hp hp ha hb) ∙ same

-- For ids that `verify_id` accepts, a clause matches an id exactly when the key of the id stands between the
-- keys of its bounds, and a clause that is empty matches no id.
pub id_matches-cmp_bytes :
    (col_id : ℕ) (lower upper oid : ℤ) (sort : Sort)
    → col_id < 2 ^ 16
    → verify_id lower ≡ ok tt
    → verify_id upper ≡ ok tt
    → verify_id oid ≡ ok tt
    → (id_matches (new col_id lower upper sort) oid ≡ (
        key_at_most (IntKey.new col_id lower) (IntKey.new col_id oid)
        && key_at_most (IntKey.new col_id oid) (IntKey.new col_id upper)))
      × (is_empty (new col_id lower upper sort) ≡ true
          → id_matches (new col_id lower upper sort) oid ≡ false)
unfolding id_matches is_empty new
id_matches-cmp_bytes p lower upper oid sort hp hl hu ho = (
  rw (key_at_most-new p lower oid hp hl ho, key_at_most-new p oid upper hp ho hu) refl,
  λ e. ground (arith, e),
)
