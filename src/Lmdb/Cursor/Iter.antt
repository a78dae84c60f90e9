-- ===== src/Lmdb/Cursor/Iter.antt =====
-- src/lmdb/cursor.rs: the iteration over a range of keys, and over the values of one key. `rounds` bounds
-- the loops, and a loop that is out of rounds panics.
use isar_core.Prelude.{ℕ, zero, suc, Ordering, is_lt}
use isar_core.Prelude.{Bool, true, false, if◌then◌else◌, Option, none, some}
use isar_core.Prelude.Bytes.{Bytes}
use isar_core.Error.{Result, ok, panic, ◌>>=◌, unwrap}
use isar_core.Lmdb.Cursor.{
  KeyVal, Cursor, Lmdb, Key, CursorOp, mdb_next, mdb_next_nodup, mdb_prev, mdb_prev_nodup, op_get,
  move_to, move_to_gte, move_to_dup, move_to_prev, move_to_last,
}

-- A callback gets the cursor and its own state, and answers whether to go on.
abbrev pub CursorCallback : Type 0 → Type 0
CursorCallback S = Cursor → S → Bytes → Bytes → Result (Bool × Cursor × S)

abbrev pub next_op : Bool → Bool → CursorOp
next_op true true = mdb_next_nodup
next_op true false = mdb_next
next_op false true = mdb_prev_nodup
next_op false false = mdb_prev

abbrev is_greater : Ordering → Bool
is_greater Ordering.lt = false
is_greater Ordering.eq = false
is_greater Ordering.gt = true

module _ (l : Lmdb) {S : Type 0} (callback : CursorCallback S) where
  unfoldable pub iter_between_loop :
      ℕ → CursorOp → (Bytes → Result Bool) → Cursor → S → Result (Bool × Cursor × S)
  unfolding op_get
  iter_between_loop zero next past c s = panic
  iter_between_loop (suc rounds) next past c s = do
    moved ← op_get l next none none c
    elim (moved.0) [
      | none ↦ ok (true, moved.1, s)
      | some entry ↦ (do
        done ← past (entry.0)
        if done then ok (true, moved.1, s) else (do
          answer ← callback (moved.1) s (entry.0) (entry.1)
          elim (answer.0) [
            | true ↦ iter_between_loop rounds next past (answer.1) (answer.2)
            | false ↦ ok answer
          ]))
    ]

  unfoldable pub iter_dups_loop : ℕ → Cursor → S → Result (Bool × Cursor × S)
  unfolding move_to_dup
  iter_dups_loop zero c s = panic
  iter_dups_loop (suc rounds) c s = do
    moved ← move_to_dup l c
    elim (moved.0) [
      | none ↦ ok (true, moved.1, s)
      | some entry ↦ (do
        answer ← callback (moved.1) s (entry.0) (entry.1)
        elim (answer.0) [ true ↦ iter_dups_loop rounds (answer.1) (answer.2) | false ↦ ok answer ])
    ]

module _ (l : Lmdb) {K : Type 0} ⦃k : Key K⦄ where
  -- `upper_key < lower_key`.
  unfoldable pub lt_key : K → K → Result Bool
  lt_key a b = do order ← unwrap (k.cmp_bytes a (k.as_bytes b)); ok (is_lt order)

  abbrev first_entry : K → K → Bool → Cursor → Result (Option KeyVal × Cursor)
  first_entry lower_key upper_key true c = move_to_gte l lower_key c
  first_entry lower_key upper_key false c = do
    found ← move_to_gte l upper_key c
    elim (found.0) [ some entry ↦ ok (some entry, found.1) | none ↦ move_to_last l (found.1) ]

  -- The entry before one that is above the upper key: it has to be above the lower key.
  abbrev previous_entry : K → Cursor → Result (Option KeyVal × Cursor)
  previous_entry lower_key c = do
    prev ← move_to_prev l c
    elim (prev.0) [
      | none ↦ ok (none, prev.1)
      | some entry ↦ (do
        order ← unwrap (k.cmp_bytes lower_key (entry.0))
        ok (if is_lt order then some entry else none, prev.1))
    ]

  unfoldable pub iter_between_first : K → K → Bool → Cursor → Result (Option KeyVal × Cursor)
  unfolding lt_key move_to_gte move_to_last move_to_prev
  iter_between_first lower_key upper_key ascending c = do
    empty ← lt_key upper_key lower_key
    if empty then ok (none, c) else (do
      first ← first_entry lower_key upper_key ascending c
      elim (first.0) [
        | none ↦ ok (none, first.1)
        | some entry ↦ (do
          order ← unwrap (k.cmp_bytes upper_key (entry.0))
          if is_lt order
              then (if ascending then ok (none, first.1) else previous_entry lower_key (first.1))
              else ok first)
      ])

  -- The test that ends the loop.
  abbrev pub is_past : K → K → Bool → Bytes → Result Bool
  is_past lower_key upper_key true key = do
    order ← unwrap (k.cmp_bytes upper_key key)
    ok (is_lt order)
  is_past lower_key upper_key false key = do
    order ← unwrap (k.cmp_bytes lower_key key)
    ok (is_greater order)

  module _ {S : Type 0} (callback : CursorCallback S) where
    unfoldable pub iter_between : ℕ → K → K → Bool → Bool → Cursor → S → Result (Bool × Cursor × S)
    unfolding lt_key iter_between_first iter_between_loop
    iter_between rounds lower_key upper_key skip_duplicates ascending c s = do
      empty ← lt_key upper_key lower_key
      if empty then ok (true, c, s) else (do
        first ← iter_between_first lower_key upper_key ascending c
        elim (first.0) [
          | none ↦ ok (true, first.1, s)
          | some entry ↦ (do
            answer ← callback (first.1) s (entry.0) (entry.1)
            elim (answer.0) [
              | false ↦ ok answer
              | true ↦
                  iter_between_loop l callback rounds (next_op ascending skip_duplicates)
                    (is_past lower_key upper_key ascending) (answer.1) (answer.2)
            ])
        ])

    -- A callback that stops at the first entry is answered by true.
    unfoldable pub iter_dups : ℕ → K → Cursor → S → Result (Bool × Cursor × S)
    unfolding move_to iter_dups_loop
    iter_dups rounds key c s = do
      moved ← move_to l key c
      elim (moved.0) [
        | none ↦ ok (true, moved.1, s)
        | some entry ↦ (do
          answer ← callback (moved.1) s (entry.0) (entry.1)
          if answer.0
              then iter_dups_loop l callback rounds (answer.1) (answer.2)
              else ok (true, answer.1, answer.2))
      ]
