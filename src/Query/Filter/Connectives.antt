-- ===== src/Query/Filter/Connectives.antt =====
-- The connectives of filters are those of Boolean logic.
use isar_core.Prelude.{ℕ, ◌≡◌, refl, inl, inr}
use isar_core.Prelude.{Bool, true, false, not, ◌&&◌, ◌||◌, Option, Bool-cases}
use isar_core.Error.{Result, ok}
use isar_core.Lmdb.Cursor.{Lmdb}
use isar_core.Object.IsarObject.{IsarObject}
use isar_core.Index.Hashing.{Unicode}
use isar_core.Query.Filter.{Filter, and_cond, or_cond, not_cond, static_cond, Filters, nil, cons}
use isar_core.Query.Filter.Evaluate.{FilterCursors, evaluate, evaluate_and, evaluate_or}

-- The meaning of a filter, over that of the conditions it is made of.
unfoldable mutual
  pub holds : (Filter → Bool) → Filter → Bool
  holds leaf (and_cond filters) = holds_all leaf filters
  holds leaf (or_cond filters) = holds_any leaf filters
  holds leaf (not_cond filter) = not (holds leaf filter)
  holds leaf (static_cond value) = value
  holds leaf filter = leaf filter

  pub holds_all : (Filter → Bool) → Filters → Bool
  holds_all leaf nil = true
  holds_all leaf (cons filter filters) = holds leaf filter && holds_all leaf filters

  pub holds_any : (Filter → Bool) → Filters → Bool
  holds_any leaf nil = false
  holds_any leaf (cons filter filters) = holds leaf filter || holds_any leaf filters

-- `P` is what is known of the cursors.
module _ (u : Unicode) (l : Lmdb) (rounds : ℕ) (object : IsarObject)
    (P : Option FilterCursors → Type 0) (leaf : Filter → Bool) where
  abbrev pub Answers : (Option FilterCursors → Result (Bool × Option FilterCursors)) → Bool → Type 0
  Answers run b =
      (cursors : Option FilterCursors)
      → P cursors
      → (cursors' : Option FilterCursors) × P cursors' × (run cursors ≡ ok (b, cursors'))

  -- Each condition that is no connective answers what `leaf` says.
  unfoldable mutual
    pub LeavesAnswer : Filter → Type 0
    LeavesAnswer (and_cond filters) = AllLeavesAnswer filters
    LeavesAnswer (or_cond filters) = AllLeavesAnswer filters
    LeavesAnswer (not_cond filter) = LeavesAnswer filter
    LeavesAnswer (static_cond value) = Unit {0}
    LeavesAnswer filter = Answers (evaluate u l rounds filter object) (leaf filter)

    pub AllLeavesAnswer : Filters → Type 0
    AllLeavesAnswer nil = Unit {0}
    AllLeavesAnswer (cons filter filters) = LeavesAnswer filter × AllLeavesAnswer filters

  mutual
    unfolding evaluate holds LeavesAnswer

    evaluate-Answers :
        (filter : Filter)
        → LeavesAnswer filter
        → Answers (evaluate u l rounds filter object) (holds leaf filter)
    evaluate-Answers (and_cond filters) h cursors p = evaluate_and-Answers filters h cursors p
    evaluate-Answers (or_cond filters) h cursors p = evaluate_or-Answers filters h cursors p
    evaluate-Answers (not_cond filter) h cursors p =
        let (cursors', p', e) = evaluate-Answers filter h cursors p in (cursors', p', rw e refl)
    evaluate-Answers (static_cond value) h cursors p = (cursors, p, refl)
    evaluate-Answers filter h cursors p = h cursors p

    evaluate_and-Answers :
        (filters : Filters)
        → AllLeavesAnswer filters
        → Answers (evaluate_and u l rounds filters object) (holds_all leaf filters)
    evaluate_and-Answers nil h cursors p = (cursors, p, refl)
    evaluate_and-Answers (cons filter filters) (h, hs) cursors p =
        let (cursors₁, p₁, e₁) = evaluate-Answers filter h cursors p in
        elim (Bool-cases (holds leaf filter)) [
          | inr no_match ↦ (cursors₁, p₁, rw (e₁, no_match) refl)
          | inl match_here ↦
              let (cursors₂, p₂, e₂) = evaluate_and-Answers filters hs cursors₁ p₁ in
              (cursors₂, p₂, rw (e₁, match_here) e₂)
        ]

    evaluate_or-Answers :
        (filters : Filters)
        → AllLeavesAnswer filters
        → Answers (evaluate_or u l rounds filters object) (holds_any leaf filters)
    evaluate_or-Answers nil h cursors p = (cursors, p, refl)
    evaluate_or-Answers (cons filter filters) (h, hs) cursors p =
        let (cursors₁, p₁, e₁) = evaluate-Answers filter h cursors p in
        elim (Bool-cases (holds leaf filter)) [
          | inl match_here ↦ (cursors₁, p₁, rw (e₁, match_here) refl)
          | inr no_match ↦
              let (cursors₂, p₂, e₂) = evaluate_or-Answers filters hs cursors₁ p₁ in
              (cursors₂, p₂, rw (e₁, no_match) e₂)
        ]

  -- A filter answers by conjunction, disjunction and negation of the answers of the conditions it is made
  -- of, when each of these answers on every state of the cursors that is kept by all of them.
  pub evaluate-holds :
      (filter : Filter) (cursors : Option FilterCursors)
      → LeavesAnswer filter
      → P cursors
      → (cursors' : Option FilterCursors) × P cursors'
        × (evaluate u l rounds filter object cursors ≡ ok (holds leaf filter, cursors'))
  evaluate-holds filter cursors h p = evaluate-Answers filter h cursors p
