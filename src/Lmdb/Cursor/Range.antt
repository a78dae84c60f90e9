-- ===== src/Lmdb/Cursor/Range.antt =====
-- Iterating upwards over a range of keys visits exactly the entries of the range, in order.
use isar_core.Prelude.{
  ℕ, ◌<◌, ◌≡◌, refl, sym, ap, ◌∙◌, ◌⊎◌, inl, inr, arith, Ordering, reverse, is_lt, is_le,
}
use isar_core.Prelude.{
  Bool, true, false, not, ◌&&◌, if◌then◌else◌, none, some, List, [], ◌∷◌, length, All, Bool-cases,
}
use mathlib.Core.Path.{subst}
use isar_core.Prelude.Bytes.{Bytes}
use isar_core.Error.{ok}
use isar_core.Lmdb.Cursor.{KeyVal, Cursor, Lmdb, Key, mdb_set_range, move_to_gte}
use isar_core.Lmdb.Cursor.Iter.{
  next_op, lt_key, is_past, iter_between_first, iter_between_loop, iter_between,
}
use isar_core.Lmdb.Cursor.Documented.{IsDocumented, step, is_asked, entries, seek, place}
use isar_core.Lmdb.Cursor.Reads.{
  reading, answer_of, drop_until-All, length-drop_until, filter, take_until, drop_until,
  drop_until-here, seek-drop_until, op_get-found, op_get-missing, after_callback,
}
use isar_core.Lmdb.Cursor.Skips.{behind, visited, visited-take_until, iter_between_loop-behind}
use isar_core.Query.Execute.{Callback, for_each}

-- The order of a database is total, and each entry is at most the ones behind it.
pub record IsOrder (cmp : Bytes → Bytes → Ordering) : Type 0 where
  pub swap : (a b : Bytes) → cmp b a ≡ reverse (cmp a b)
  pub trans :
      (a b c : Bytes) → is_le (cmp a b) ≡ true → is_le (cmp b c) ≡ true → is_le (cmp a c) ≡ true

module _ (cmp : Bytes → Bytes → Ordering) where
  abbrev pub InOrder : List KeyVal → Type 0
  InOrder [] = Unit {0}
  InOrder (e ∷ es) = All (λ (x : KeyVal). is_le (cmp (e.0) (x.0)) ≡ true) es × InOrder es

  -- A key compares with the keys of the entries as the database does.
  abbrev pub Compares : {K : Type 0} ⦃k : Key K⦄ → K → List KeyVal → Type 0
  Compares ⦃k⦄ key es =
      All (λ (e : KeyVal). k.cmp_bytes key (e.0) ≡ some (cmp (k.as_bytes key) (e.0))) es

  abbrev pub in_range : Bytes → Bytes → KeyVal → Bool
  in_range lower upper e = is_le (cmp lower (e.0)) && is_le (cmp (e.0) upper)

  module _ (order : IsOrder cmp) (lower upper : Bytes) where
    abbrev above : Bytes → Bool
    above key = is_lt (cmp upper key)

    above-not_le : (key : Bytes) → is_le (cmp key upper) ≡ not (is_lt (cmp upper key))
    above-not_le key = rw (order.swap upper key) (by_order (cmp upper key))
      where
        by_order : (o : Ordering) → is_le (reverse o) ≡ not (is_lt o)
        by_order Ordering.lt = refl
        by_order Ordering.eq = refl
        by_order Ordering.gt = refl

    le-above :
        (key x : Bytes) → above key ≡ true → is_le (cmp key x) ≡ true → is_le (cmp x upper) ≡ false
    le-above key x h k = elim (Bool-cases (is_le (cmp x upper))) [
      | inl t ↦ ground (arith, order.trans key x upper k t, above-not_le key)
      | inr t ↦ t
    ]

    -- Behind an entry that is above the upper bound, no entry is in range.
    filter-above :
        (key : Bytes) (es : List KeyVal)
        → above key ≡ true
        → All (λ (x : KeyVal). is_le (cmp key (x.0)) ≡ true) es
        → filter (in_range lower upper) es ≡ []
    unfolding filter
    filter-above key [] h later = refl
    filter-above key (x ∷ es) h (here, later) =
        rw (le-above key (x.0) h here)
          (by_lower (is_le (cmp lower (x.0))) (filter-above key es h later))
      where
        by_lower :
            (b : Bool) {es : List KeyVal} → es ≡ [] → (if b && false then x ∷ es else es) ≡ []
        by_lower true e = e
        by_lower false e = e

    -- From an entry that is at least the lower bound on, only the upper bound matters.
    filter-take_until :
        (es : List KeyVal)
        → InOrder es
        → All (λ (x : KeyVal). is_le (cmp lower (x.0)) ≡ true) es
        → filter (in_range lower upper) es ≡ take_until above es
    unfolding filter take_until
    filter-take_until [] sorted least = refl
    filter-take_until (e ∷ es) (first, sorted) (low, least) =
        rw (low, above-not_le (e.0))
          (elim (Bool-cases (above (e.0))) [
            | inl h ↦ rw h (filter-above (e.0) es h first)
            | inr h ↦ rw h (ap (λ xs. e ∷ xs) (filter-take_until es sorted least))
          ])

    least-later :
        (key : Bytes) (es : List KeyVal)
        → is_le (cmp lower key) ≡ true
        → All (λ (x : KeyVal). is_le (cmp key (x.0)) ≡ true) es
        → All (λ (x : KeyVal). is_le (cmp lower (x.0)) ≡ true) es
    least-later key [] h later = tt
    least-later key (x ∷ es) h (here, later) =
        (order.trans lower key (x.0) h here, least-later key es h later)

    -- The entries in range stand together: they begin at the lower bound and end at the upper one.
    pub filter-drop_until :
        (es : List KeyVal)
        → InOrder es
        → filter (in_range lower upper) es
          ≡ take_until above (drop_until (λ e. is_le (cmp lower (e.0))) es)
    unfolding filter drop_until
    filter-drop_until [] sorted = unfold take_until in refl
    filter-drop_until (e ∷ es) (first, sorted) = elim (Bool-cases (is_le (cmp lower (e.0)))) [
      | inl h ↦
          filter-take_until (e ∷ es) (first, sorted) (h, least-later (e.0) es h first)
          ∙ sym (ap (take_until above) (drop_until-here (λ e. is_le (cmp lower (e.0))) e es h))
      | inr h ↦ rw h (filter-drop_until es sorted)
    ]

module _ (cmp : Bytes → Bytes → Ordering) (order : IsOrder cmp) where
  above-least :
      (low high key : Bytes)
      → is_lt (cmp high low) ≡ true
      → is_le (cmp low key) ≡ true
      → is_lt (cmp high key) ≡ true
  above-least low high key h k = elim (Bool-cases (is_lt (cmp high key))) [
    | inl t ↦ t
    | inr t ↦ ground (
      arith,
      order.trans low key high k,
      above-not_le cmp order low high key,
      above-not_le cmp order low high low,
    )
  ]

module _ (cmp : Bytes → Bytes → Ordering) (order : IsOrder cmp) (l : Lmdb)
    (doc : IsDocumented cmp l) {K : Type 0} ⦃k : Key K⦄ {S : Type 0} (visit : Callback S KeyVal)
    (skip_duplicates : Bool) (lower upper : K) (rounds : ℕ) (c : Cursor) (s : S) where
  abbrev low : Bytes
  low = k.as_bytes lower

  abbrev high : Bytes
  high = k.as_bytes upper

  abbrev reaches : KeyVal → Bool
  reaches e = is_le (cmp low (e.0))

  -- The iteration with the bounds the wrong way round.
  iter_between-empty :
      lt_key l upper lower ≡ ok true
      → answer_of (iter_between l (reading visit) rounds lower upper skip_duplicates true c s)
        ≡ ok (true, s)
  unfolding iter_between
  iter_between-empty bounds = rw bounds refl

  -- The iteration when the search for the lower bound finds nothing.
  iter_between-none :
      lt_key l upper lower ≡ ok false
      → seek reaches [] (entries c.cursor) ≡ none
      → answer_of (iter_between l (reading visit) rounds lower upper skip_duplicates true c s)
        ≡ ok (true, s)
  unfolding iter_between iter_between_first move_to_gte
  iter_between-none bounds seeks =
      let (p', same, eq) =
        op_get-missing cmp l doc mdb_set_range (some low) none c (unfold is_asked in refl)
          (unfold step in seeks) in
      rw (bounds, eq) refl

  tests :
      (es : List KeyVal)
      → Compares cmp upper es
      → All (λ (x : KeyVal). is_past l lower upper true (x.0) ≡ ok (is_lt (cmp high (x.0)))) es
  tests [] h = tt
  tests (e ∷ es) (here, later) = (rw here refl, tests es later)

  -- The iteration from the first entry that reaches the lower bound.
  iter_between-some :
      (e : KeyVal) (before rest : List KeyVal)
      → lt_key l upper lower ≡ ok false
      → seek reaches [] (entries c.cursor) ≡ some (e, place before (e ∷ rest))
      → Compares cmp upper (e ∷ rest)
      → length rest < rounds
      → answer_of (iter_between l (reading visit) rounds lower upper skip_duplicates true c s)
        ≡ for_each visit s
            (take_until (λ key. is_lt (cmp high key)) (visited skip_duplicates (e ∷ rest)))
  unfolding iter_between iter_between_first move_to_gte for_each take_until
  iter_between-some e before rest bounds seeks (here, later) fuel =
      rw
        (
          bounds,
          op_get-found cmp l doc mdb_set_range (some low) none c e (place before (e ∷ rest))
              (unfold step in seeks),
          here,
        )
        (elim (Bool-cases (is_lt (cmp high (e.0)))) [
          | inl h ↦ rw h refl
          | inr h ↦ rw h (
              after_callback (visit s e) (record c { cursor = place before (e ∷ rest) })
                (λ c s.
                  iter_between_loop l (reading visit) rounds (next_op true skip_duplicates)
                    (is_past l lower upper true) c s)
                (λ s.
                  for_each visit s
                    (take_until (λ key. is_lt (cmp high key)) (behind skip_duplicates e rest)))
                (λ s.
                  iter_between_loop-behind cmp l doc visit (is_past l lower upper true)
                    (λ key. is_lt (cmp high key)) skip_duplicates rounds _ s before rest e refl fuel
                    (tests rest later)))
        ])

  lt_key-bounds :
      k.cmp_bytes upper low ≡ some (cmp high low) → lt_key l upper lower ≡ ok (is_lt (cmp high low))
  unfolding lt_key
  lt_key-bounds bounds = rw bounds refl

  -- The same from either outcome of the search.
  iter_between-from :
      k.cmp_bytes upper low ≡ some (cmp high low)
      → (es : List KeyVal) → drop_until reaches (entries c.cursor) ≡ es
      → ((seek reaches [] (entries c.cursor) ≡ none) × (es ≡ []))
        ⊎ ((e : KeyVal) × (before : List KeyVal) × (rest : List KeyVal) × (seek reaches []
                (entries c.cursor)
              ≡ some (e, place before (e ∷ rest)))
            × (es ≡ e ∷ rest)
            × (reaches e ≡ true))
      → Compares cmp upper es
      → length es < rounds
      → answer_of (iter_between l (reading visit) rounds lower upper skip_duplicates true c s)
        ≡ for_each visit s (take_until (λ key. is_lt (cmp high key)) (visited skip_duplicates es))
  unfolding take_until for_each
  iter_between-from bounds es drops (inl (seeks, e)) compares fuel =
      rw e (elim (Bool-cases (is_lt (cmp high low))) [
        | inl h ↦ iter_between-empty (lt_key-bounds bounds ∙ ap ok h)
        | inr h ↦ iter_between-none (lt_key-bounds bounds ∙ ap ok h) seeks
      ])
  iter_between-from bounds es drops (inr (e, before, rest, seeks, eq, found)) compares fuel =
      elim (Bool-cases (is_lt (cmp high low))) [
        | inl h ↦
            rw (eq, above-least cmp order low high (e.0) h found)
              (iter_between-empty (lt_key-bounds bounds ∙ ap ok h))
        | inr h ↦ rw eq (
            iter_between-some e before rest (lt_key-bounds bounds ∙ ap ok h) seeks
              (subst (λ xs. Compares cmp upper xs) eq compares)
              (omega (arith, ap (length {A = KeyVal}) eq)))
      ]

  -- An iteration upwards from a lower to an upper key, in a database that is in order and with more rounds
  -- than it has entries, whose callback leaves the cursor alone, calls it on exactly the entries with a
  -- key between the two, both included, in order, or with `skip_duplicates` on the first of these entries
  -- for each key, until the callback stops it or fails; with the bounds the wrong way round there is none.
  pub iter_between-ascending :
      k.cmp_bytes upper low ≡ some (cmp high low)
      → Compares cmp upper (entries c.cursor)
      → InOrder cmp (entries c.cursor)
      → length (entries c.cursor) < rounds
      → answer_of (iter_between l (reading visit) rounds lower upper skip_duplicates true c s)
        ≡ for_each visit s
            (visited skip_duplicates (filter (in_range cmp low high) (entries c.cursor)))
  iter_between-ascending bounds compares sorted fuel =
      rw
        (
          filter-drop_until cmp order low high (entries c.cursor) sorted,
          ← visited-take_until (λ key. is_lt (cmp high key)) skip_duplicates
              (drop_until reaches (entries c.cursor)),
        )
        (iter_between-from bounds _ refl (seek-drop_until reaches [] (entries c.cursor))
          (drop_until-All _ reaches (entries c.cursor) compares)
          (omega (arith, length-drop_until reaches (entries c.cursor))))
