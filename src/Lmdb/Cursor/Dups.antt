-- ===== src/Lmdb/Cursor/Dups.antt =====
-- Iterating over the values of one key.
use isar_core.Prelude.{ℕ, zero, suc, ◌<◌, ◌≡◌, refl, ap, ◌⊎◌, inl, inr, arith, Ordering, is_eq}
use isar_core.Prelude.{
  Bool, true, false, if◌then◌else◌, none, some, List, [], ◌∷◌, length, Bool-cases,
}
use isar_core.Prelude.Bytes.{Bytes}
use isar_core.Error.{Result, ok, err, panic, ◌>>=◌}
use isar_core.Lmdb.Cursor.{
  KeyVal, Cursor, Lmdb, Key, mdb_next_dup, mdb_set_key, move_to, move_to_dup,
}
use isar_core.Lmdb.Cursor.Iter.{iter_dups_loop, iter_dups}
use isar_core.Lmdb.Cursor.Documented.{
  IsDocumented, step, is_asked, entries, seek, next_dup, place, same_bytes,
}
use isar_core.Lmdb.Cursor.Reads.{
  reading, answer_of, drop_until, seek-drop_until, length-drop_until, op_get-found, op_get-missing,
  keep_cursor, after_callback,
}
use isar_core.Query.Execute.{Callback, for_each}

-- The entries behind one that have its key.
unfoldable pub run_of : KeyVal → List KeyVal → List KeyVal
run_of e [] = []
run_of e (x ∷ xs) = if same_bytes (e.0) (x.0) then x ∷ run_of x xs else []

-- The entries of the first key that passes a test.
abbrev pub run_from : List KeyVal → List KeyVal
run_from [] = []
run_from (e ∷ es) = e ∷ run_of e es

-- A callback on the entries of one key, with the answer of `iter_dups` when it stops at the first.
unfoldable pub for_each_dup : {S : Type 0} → Callback S KeyVal → S → List KeyVal → Result (Bool × S)
unfolding for_each
for_each_dup visit s [] = ok (true, s)
for_each_dup visit s (e ∷ es) = do
  answer ← visit s e
  if answer.0 then for_each visit (answer.1) es else ok (true, answer.1)

after_first_callback :
    {S : Type 0} (r : Result (Bool × S)) (c : Cursor)
    (next : Cursor → S → Result (Bool × Cursor × S)) (rest : S → Result (Bool × S))
    → ((s : S) → answer_of (next c s) ≡ rest s)
    → answer_of (keep_cursor c r >>= λ a. if a.0 then next (a.1) (a.2) else ok (true, a.1, a.2))
      ≡ (r >>= λ a. if a.0 then rest (a.1) else ok (true, a.1))
after_first_callback (ok (true, s)) c next rest h = h s
after_first_callback (ok (false, s)) c next rest h = refl
after_first_callback (err e) c next rest h = refl
after_first_callback panic c next rest h = refl

module _ (cmp : Bytes → Bytes → Ordering) (l : Lmdb) (doc : IsDocumented cmp l) {S : Type 0}
    (visit : Callback S KeyVal) where
  pub iter_dups_loop-run_of :
      (rounds : ℕ) (c : Cursor) (s : S) (before after : List KeyVal) (e : KeyVal)
      → c.cursor ≡ place before (e ∷ after)
      → length after < rounds
      → answer_of (iter_dups_loop l (reading visit) rounds c s) ≡ for_each visit s (run_of e after)
  unfolding iter_dups_loop move_to_dup for_each run_of
  iter_dups_loop-run_of zero c s before after e h fuel = absurd (omega arith)
  iter_dups_loop-run_of (suc rounds) c s before [] e h fuel =
      let (p', same, eq) =
        op_get-missing cmp l doc mdb_next_dup none none c (unfold is_asked in refl)
          (rw h (unfold step next_dup in refl)) in
      rw eq refl
  iter_dups_loop-run_of (suc rounds) c s before (x ∷ after) e h fuel =
      elim (Bool-cases (same_bytes (e.0) (x.0))) [
        | inr t ↦
            let (p', same, eq) =
              op_get-missing cmp l doc mdb_next_dup none none c (unfold is_asked in refl)
                (rw h (unfold step next_dup in rw t refl)) in
            rw (eq, t) refl
        | inl t ↦
            rw
              (
                op_get-found cmp l doc mdb_next_dup none none c x (place (e ∷ before) (x ∷ after))
                    (rw h (unfold step next_dup in rw t refl)),
                t,
              )
              (after_callback (visit s x) (record c { cursor = place (e ∷ before) (x ∷ after) })
                (λ c s. iter_dups_loop l (reading visit) rounds c s)
                (λ s. for_each visit s (run_of x after))
                (λ s. iter_dups_loop-run_of rounds _ s (e ∷ before) after x refl (omega arith)))
      ]

  module _ {K : Type 0} ⦃k : Key K⦄ (key : K) (rounds : ℕ) (c : Cursor) (s : S) where
    abbrev here : KeyVal → Bool
    here e = is_eq (cmp (k.as_bytes key) (e.0))

    iter_dups-from :
        (es : List KeyVal)
        → ((seek here [] (entries c.cursor) ≡ none) × (es ≡ []))
          ⊎ ((e : KeyVal) × (before : List KeyVal) × (rest : List KeyVal) × (seek here []
                  (entries c.cursor)
                ≡ some (e, place before (e ∷ rest)))
              × (es ≡ e ∷ rest)
              × (here e ≡ true))
        → length es < rounds
        → answer_of (iter_dups l (reading visit) rounds key c s)
          ≡ for_each_dup visit s (run_from es)
    unfolding iter_dups move_to for_each_dup
    iter_dups-from es (inl (seeks, e)) fuel =
        let (p', same, eq) =
          op_get-missing cmp l doc mdb_set_key (some (k.as_bytes key)) none c
            (unfold is_asked in refl) (unfold step in seeks) in
        rw (eq, e) refl
    iter_dups-from es (inr (e, before, rest, seeks, eq, found)) fuel =
        rw
          (
            op_get-found cmp l doc mdb_set_key (some (k.as_bytes key)) none c e
                (place before (e ∷ rest)) (unfold step in seeks),
            eq,
          )
          (after_first_callback (visit s e) (record c { cursor = place before (e ∷ rest) })
            (λ c s. iter_dups_loop l (reading visit) rounds c s)
            (λ s. for_each visit s (run_of e rest))
            (λ s.
              iter_dups_loop-run_of rounds _ s before rest e refl
                (omega (arith, ap (length {A = KeyVal}) eq))))

    pub iter_dups-for_each_dup :
        length (entries c.cursor) < rounds
        → answer_of (iter_dups l (reading visit) rounds key c s)
          ≡ for_each_dup visit s (run_from (drop_until here (entries c.cursor)))
    iter_dups-for_each_dup fuel =
        iter_dups-from _ (seek-drop_until here [] (entries c.cursor))
          (omega (arith, length-drop_until here (entries c.cursor)))
