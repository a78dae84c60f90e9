-- ===== src/Samples/Ranges.antt =====
-- A range of an index over an int, with its keys of six bytes.
use isar_core.Prelude.{ℕ, ◌≡◌, refl, ◌↔◌, inr, arith}
use isar_core.Prelude.{true, false, [], ◌∷◌}
use isar_core.Prelude.Bytes.{Bytes, compare_bytes}
use isar_core.Index.Types.{Index}
use isar_core.Prelude.Int.{pos, negsuc}
use isar_core.Prelude.{◌&&◌}
use isar_core.Lmdb.IntKey
use isar_core.Lmdb.IntKey.{verify_id}
use isar_core.Query.IdWhereClause
use isar_core.Query.IdWhereClause.Range.{key_at_most, id_matches-cmp_bytes}
use isar_core.Query.Sort.{Sort}
use isar_core.Query.IndexWhereClause.{IndexWhereClause, in_range, try_exclude}
use isar_core.Query.IndexWhereClause.Exclude.{Below}
use isar_core.Query.IndexWhereClause.Range.{
  AboveBound, BelowBound, try_exclude-narrows, try_exclude-exact, try_exclude-skips,
}

abbrev index : Index
index = record { id = 1; col_id = 0; properties = []; unique = false; replace = false }

abbrev key : ℕ → ℕ → Bytes
key a b = 0 ∷ 1 ∷ 128 ∷ 0 ∷ a ∷ b ∷ []

-- The keys of the ints between `lower` and `upper`.
abbrev range : Bytes → Bytes → IndexWhereClause
range lower upper = record {
  lower_key = lower;
  upper_key = upper;
  index = index;
  skip_duplicates = false;
  sort = Sort.ascending;
}

excluded_bounds :
    try_exclude false false (range (key 0 7) (key 0 9)) ≡ (range (key 0 8) (key 0 8), true)
unfolding try_exclude
excluded_bounds = refl

-- The key of 255 as an excluded lower bound becomes that of 511.
past_255 :
    try_exclude false true (range (key 0 255) (key 9 0)) ≡ (range (key 1 255) (key 9 0), true)
unfolding try_exclude
past_255 = refl

try_exclude-narrows_example :
    AboveBound false (key 0 7) (key 0 8) × BelowBound false (key 0 9) (key 0 8)
unfolding try_exclude in_range compare_bytes
try_exclude-narrows_example =
    try_exclude-narrows false false (range (key 0 7) (key 0 9)) (key 0 8) refl refl

try_exclude-exact_example :
    ((try_exclude false false (range (key 0 7) (key 0 9))).1 ≡ true)
    × ((in_range (try_exclude false false (range (key 0 7) (key 0 9))).0 (key 0 8) ≡ true)
        ↔ (AboveBound false (key 0 7) (key 0 8) × BelowBound false (key 0 9) (key 0 8)))
try_exclude-exact_example =
    try_exclude-exact false false (range (key 0 7) (key 0 9)) 0 1 7 0 1 9 (128 ∷ 0 ∷ 0 ∷ [])
      (128 ∷ 0 ∷ 0 ∷ []) (key 0 8) refl refl (inr (omega arith)) (inr (omega arith)) refl refl

try_exclude-skips_example :
    Below (key 0 255) (key 1 0)
    × (in_range (try_exclude false true (range (key 0 255) (key 9 0))).0 (key 1 0) ≡ false)
try_exclude-skips_example =
    try_exclude-skips (range (key 0 255) (key 9 0)) 0 1 0 (128 ∷ 0 ∷ []) refl (omega arith)

id_matches-cmp_bytes_example :
    (IdWhereClause.id_matches (IdWhereClause.new 2 (negsuc 4) (pos 9) Sort.ascending) (pos 3) ≡ (
      key_at_most (IntKey.new 2 (negsuc 4)) (IntKey.new 2 (pos 3))
      && key_at_most (IntKey.new 2 (pos 3)) (IntKey.new 2 (pos 9))))
    × (IdWhereClause.is_empty (IdWhereClause.new 2 (negsuc 4) (pos 9) Sort.ascending) ≡ true
        → IdWhereClause.id_matches (IdWhereClause.new 2 (negsuc 4) (pos 9) Sort.ascending) (pos 3)
          ≡ false)
unfolding verify_id
id_matches-cmp_bytes_example =
    id_matches-cmp_bytes 2 (negsuc 4) (pos 9) (pos 3) Sort.ascending (omega arith) refl refl refl
