-- ===== src/Query/QueryBuilder/Clauses.antt =====
-- What the where clauses of a built query match.
use isar_core.Prelude.{
  ℕ, ◌≡◌, refl, ap, ◌∙◌, arith, Bool, true, false, not, if◌then◌else◌, ◌&&◌, ◌||◌, none, some, List,
  [], ◌∷◌, ◌++◌, inl, inr, Bool-cases,
}
use isar_core.Prelude.Int.{ℤ, leb_ℤ, ltb_ℤ}
use isar_core.Error.{Result, ok, err, panic, ◌>>=◌}
use isar_core.Lmdb.IntKey.{min_id, max_id, verify_id}
use isar_core.Lmdb.Cursor.{Lmdb}
use isar_core.Object.IsarObject.{IsarObject}
use isar_core.Index.Hashing.{Hashing, Unicode}
use isar_core.Query.Sort.{Sort}
use isar_core.Query.IdWhereClause
use isar_core.Query.IdWhereClause.{id_matches}
use isar_core.Query.WhereClause.{WhereClause, matches}
use isar_core.Object.IsarObject.{read_long}
use isar_core.Object.ObjectInfo.{Property}
use isar_core.Collection.{IsarCollection}
use isar_core.Link.{Link}
use isar_core.Query.Filter.{Filter, link_cond}
use isar_core.Query.Filter.Evaluate.{evaluate}
use isar_core.Query.Filter.Connectives.{holds, evaluate-holds, LeavesAnswer}
use isar_core.Query.QueryBuilder.{
  QueryBuilder, new, clauses_of, add_id_where_clause, set_filter, build, matches_any,
  matches_wc_filter, filter_or_true,
}

abbrev or_else : Result Bool → Result Bool → Result Bool
or_else first rest = first >>= λ b. elim b [ true ↦ ok true | false ↦ rest ]

-- A later clause is tried where the first ones do not match.
first_or_later :
    (first rest rest' : Result Bool) (last : Bool)
    → rest' ≡ rest >>= (λ b. ok (b || last))
    → or_else first rest' ≡ or_else first rest >>= (λ b. ok (b || last))
first_or_later (ok true) rest rest' last h = refl
first_or_later (ok false) rest rest' last h = h
first_or_later (err e) rest rest' last h = refl
first_or_later panic rest rest' last h = refl

or_false : (r : Result Bool) → r ≡ r >>= (λ b. ok (b || false))
or_false (ok true) = refl
or_false (ok false) = refl
or_false (err e) = refl
or_false panic = refl

or_else-ok : (last : Bool) → or_else (ok last) (ok false) ≡ ok last
or_else-ok true = refl
or_else-ok false = refl

-- The ranges of ids that a builder is given, the last one first.
abbrev pub add_ranges : List (ℤ × ℤ × Sort) → QueryBuilder → QueryBuilder
add_ranges [] builder = builder
add_ranges ((lower, upper, sort) ∷ ranges) builder =
    add_id_where_clause (add_ranges ranges builder) lower upper sort

abbrev pub in_ranges : ℤ → List (ℤ × ℤ × Sort) → Bool
in_ranges id [] = false
in_ranges id ((lower, upper, sort) ∷ ranges) =
    in_ranges id ranges || (leb_ℤ lower id && leb_ℤ id upper)

module _ (u : Unicode) (h : Hashing) (object : IsarObject) where
  -- Without cursors a condition on links fails, and the object is taken.
  link_or_true :
      (l : Lmdb) (rounds : ℕ) (link : Link) (id_property : Property) (filter : Filter) (oid : ℤ)
      → read_long object id_property ≡ ok oid
      → filter_or_true u h l rounds (some (link_cond link id_property filter)) object ≡ ok true
  unfolding evaluate
  link_or_true l rounds link id_property filter oid read = rw (filter_or_true, read) refl

module _ (u : Unicode) (h : Hashing) (id : ℤ) (object : IsarObject) where
  matches_any-append :
      (clauses : List WhereClause) (wc : WhereClause) (last : Bool)
      → matches u h wc id object ≡ ok last
      → matches_any u h (clauses ++ wc ∷ []) id object
        ≡ matches_any u h clauses id object >>= (λ b. ok (b || last))
  unfolding matches_any
  matches_any-append [] wc last e = ap (λ r. or_else r (ok false)) e ∙ or_else-ok last
  matches_any-append (c ∷ clauses) wc last e =
      first_or_later (matches u h c id object) (matches_any u h clauses id object)
        (matches_any u h (clauses ++ wc ∷ []) id object) last (matches_any-append clauses wc last e)

  -- What the clauses of the builder match once a range is added, which is dropped where it is empty.
  matches_any-add_id_where_clause :
      (builder : QueryBuilder) (lower upper : ℤ) (sort : Sort)
      → matches_any u h
          (clauses_of (add_id_where_clause builder lower upper sort).where_clauses)
          id
          object
        ≡ matches_any u h (clauses_of builder.where_clauses) id object
          >>= (λ b. ok (b || (leb_ℤ lower id && leb_ℤ id upper)))
  unfolding add_id_where_clause IdWhereClause.new IdWhereClause.is_empty matches id_matches
  matches_any-add_id_where_clause builder lower upper sort = elim (Bool-cases (ltb_ℤ upper lower)) [
    | inl y ↦ rw (y, out_of_range y) (or_false _)
    | inr n ↦ rw n (matches_any-append (clauses_of builder.where_clauses) _ _ refl)
  ]
    where
      out_of_range : ltb_ℤ upper lower ≡ true → (leb_ℤ lower id && leb_ℤ id upper) ≡ false
      out_of_range y = ground (arith, y)

  in_all_ids : verify_id id ≡ ok tt → (leb_ℤ min_id id && leb_ℤ id max_id) ≡ true
  unfolding verify_id
  in_all_ids valid = ground (arith, valid)

  matches_any-no_clauses :
      (builder : QueryBuilder)
      → builder.where_clauses ≡ none
      → matches_any u h (clauses_of builder.where_clauses) id object ≡ ok false
  unfolding matches_any
  matches_any-no_clauses builder e = rw e refl

  all_clauses :
      (builder : QueryBuilder)
      → builder.where_clauses ≡ none
      → (build builder).where_clauses
        ≡ clauses_of (add_id_where_clause builder min_id max_id Sort.ascending).where_clauses
  unfolding build
  all_clauses builder e = rw e refl

  matches_any-build :
      (builder : QueryBuilder)
      → builder.where_clauses ≡ none
      → verify_id id ≡ ok tt
      → matches_any u h (build builder).where_clauses id object ≡ ok true
  matches_any-build builder e valid =
      ap (λ clauses. matches_any u h clauses id object) (all_clauses builder e)
      ∙ matches_any-add_id_where_clause builder min_id max_id Sort.ascending
      ∙ ap (λ r. r >>= λ b. ok (b || (leb_ℤ min_id id && leb_ℤ id max_id)))
          (matches_any-no_clauses builder e)
      ∙ ap ok (in_all_ids valid)

  matches_wc_filter-filter :
      (l : Lmdb) (rounds : ℕ) (builder : QueryBuilder)
      → builder.where_clauses ≡ none
      → verify_id id ≡ ok tt
      → matches_wc_filter u h l rounds (build builder) id object
        ≡ filter_or_true u h l rounds builder.filter object
  unfolding matches_wc_filter build
  matches_wc_filter-filter l rounds builder e valid = rw (matches_any-build builder e valid) refl

  -- A query that is built without where clauses takes an object with a valid id exactly when its filter
  -- holds, where the conditions that the filter is made of answer without cursors; it takes each when the
  -- filter is a condition on links, which cannot be decided without cursors, or when there is no filter.
  pub matches_wc_filter-build :
      (l : Lmdb) (rounds : ℕ) (builder : QueryBuilder) (leaf : Filter → Bool)
      (filter linked : Filter) (link : Link) (id_property : Property) (oid : ℤ)
      → builder.where_clauses ≡ none
      → verify_id id ≡ ok tt
      → LeavesAnswer u l rounds object (λ cursors. cursors ≡ none) leaf filter
      → read_long object id_property ≡ ok oid
      → (matches_wc_filter u h l rounds (build (set_filter builder filter)) id object
          ≡ ok (holds leaf filter))
        × (matches_wc_filter u h l rounds
              (build (set_filter builder (link_cond link id_property linked)))
              id
              object
            ≡ ok true)
        × (matches_wc_filter u h l rounds (build (record builder { filter = none })) id object
            ≡ ok true)
  unfolding set_filter
  matches_wc_filter-build l rounds builder leaf filter linked link id_property oid e valid leaves
        read =
      let (cursors, p, answers) =
        evaluate-holds u l rounds object (λ cursors. cursors ≡ none) leaf filter none leaves refl in
      (
        matches_wc_filter-filter l rounds (set_filter builder filter) e valid
            ∙ rw (filter_or_true, answers) refl,
        matches_wc_filter-filter l rounds (set_filter builder (link_cond link id_property linked)) e
              valid
            ∙ link_or_true u h object l rounds link id_property linked oid read,
        matches_wc_filter-filter l rounds (record builder { filter = none }) e valid,
      )

  matches_any-add_ranges :
      (ranges : List (ℤ × ℤ × Sort)) (collection : IsarCollection)
      → matches_any u h (clauses_of (add_ranges ranges (new collection)).where_clauses) id object
        ≡ ok (in_ranges id ranges)
  unfolding new matches_any
  matches_any-add_ranges [] collection = refl
  matches_any-add_ranges ((lower, upper, sort) ∷ ranges) collection =
      matches_any-add_id_where_clause (add_ranges ranges (new collection)) lower upper sort
      ∙ ap (λ r. r >>= λ b. ok (b || (leb_ℤ lower id && leb_ℤ id upper)))
          (matches_any-add_ranges ranges collection)

  add_ranges-filter :
      (ranges : List (ℤ × ℤ × Sort)) (collection : IsarCollection)
      → (add_ranges ranges (new collection)).filter ≡ none
  unfolding new add_id_where_clause
  add_ranges-filter [] collection = refl
  add_ranges-filter (range ∷ ranges) collection = add_ranges-filter ranges collection

  -- A query that is built from one or more ranges of ids, some of which may be empty, and nothing else
  -- takes exactly the ids that are in one of the ranges.
  pub matches_wc_filter-add_ranges :
      (l : Lmdb) (rounds : ℕ) (collection : IsarCollection) (range : ℤ × ℤ × Sort)
      (ranges : List (ℤ × ℤ × Sort))
      → matches_wc_filter u h l rounds
          (build (add_ranges (range ∷ ranges) (new collection)))
          id
          object
        ≡ ok (in_ranges id (range ∷ ranges))
  unfolding matches_wc_filter build add_id_where_clause
  matches_wc_filter-add_ranges l rounds collection range ranges =
      rw
        (
          matches_any-add_ranges (range ∷ ranges) collection,
          add_ranges-filter (range ∷ ranges) collection,
        )
        (by_match (in_ranges id (range ∷ ranges)))
    where
      by_match : (b : Bool) → (if not b then ok false else ok true) ≡ ok b
      by_match true = refl
      by_match false = refl
