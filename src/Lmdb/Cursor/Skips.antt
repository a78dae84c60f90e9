-- ===== src/Lmdb/Cursor/Skips.antt =====
-- Iterating upwards over the first entry of each key.
use isar_core.Prelude.{ℕ, zero, suc, ◌<◌, ◌≡◌, refl, ap, ◌⊎◌, inl, inr, arith, Ordering}
use isar_core.Prelude.{
  Bool, true, false, not, if◌then◌else◌, none, some, List, [], ◌∷◌, length, All, Bool-cases,
}
use mathlib.Core.Path.{subst}
use isar_core.Prelude.Bytes.{Bytes}
use isar_core.Error.{Result, ok}
use isar_core.Lmdb.Cursor.{KeyVal, Cursor, Lmdb, mdb_next_nodup}
use isar_core.Lmdb.Cursor.Iter.{iter_between_loop, next_op}
use isar_core.Lmdb.Cursor.Documented.{
  IsDocumented, step, is_asked, seek, advance, place, same_bytes,
}
use isar_core.Lmdb.Cursor.Reads.{
  reading, answer_of, take_until, op_get-found, op_get-missing, after_callback,
  iter_between_loop-next,
}
use isar_core.Lmdb.Cursor.Writes.{same_bytes-eq}
use isar_core.Query.Execute.{Callback, for_each}

-- The entries behind one with this key that are the first with their keys.
unfoldable pub next_keys : Bytes → List KeyVal → List KeyVal
next_keys here [] = []
next_keys here (x ∷ xs) =
    if same_bytes here (x.0) then next_keys here xs else x ∷ next_keys (x.0) xs

-- What is visited behind an entry, and of a list of entries.
abbrev pub behind : Bool → KeyVal → List KeyVal → List KeyVal
behind false e es = es
behind true e es = next_keys (e.0) es

abbrev pub visited : Bool → List KeyVal → List KeyVal
visited skip_duplicates [] = []
visited skip_duplicates (e ∷ es) = e ∷ behind skip_duplicates e es

module _ (stops : Bytes → Bool) where
  next_keys-take_until :
      (here : Bytes) (es : List KeyVal)
      → stops here ≡ false
      → take_until stops (next_keys here es) ≡ next_keys here (take_until stops es)
  unfolding next_keys take_until
  next_keys-take_until here [] go = refl
  next_keys-take_until here (x ∷ xs) go = elim (Bool-cases (same_bytes here (x.0))) [
    | inl y ↦
        rw (y, subst (λ k. stops k ≡ false) (same_bytes-eq here (x.0) y) go, y)
          (next_keys-take_until here xs go)
    | inr n ↦ elim (Bool-cases (stops (x.0))) [
      | inl stop ↦ rw (n, stop) refl
      | inr on ↦ rw (n, on, n) (ap (λ l. x ∷ l) (next_keys-take_until (x.0) xs on))
    ]
  ]

  pub visited-take_until :
      (skip_duplicates : Bool) (es : List KeyVal)
      → take_until stops (visited skip_duplicates es)
        ≡ visited skip_duplicates (take_until stops es)
  unfolding take_until
  visited-take_until skip_duplicates [] = refl
  visited-take_until skip_duplicates (e ∷ es) = elim (Bool-cases (stops (e.0))) [
    | inl stop ↦ rw stop refl
    | inr on ↦ rw on (ap (λ l. e ∷ l) (by_flag skip_duplicates on))
  ]
    where
      by_flag :
          (skip_duplicates : Bool)
          → stops (e.0) ≡ false
          → take_until stops (behind skip_duplicates e es)
            ≡ behind skip_duplicates e (take_until stops es)
      by_flag false on = refl
      by_flag true on = next_keys-take_until (e.0) es on

-- The search for another key finds the next of the keys.
seek-next_keys :
    (P : KeyVal → Type 0) (here : Bytes) (before es : List KeyVal)
    → All P es
    → ((seek (λ x. not (same_bytes here (x.0))) before es ≡ none) × (next_keys here es ≡ []))
      ⊎ ((x : KeyVal) × (before' : List KeyVal) × (rest : List KeyVal) × (seek
              (λ x. not (same_bytes here (x.0)))
              before
              es
            ≡ some (x, place before' (x ∷ rest)))
          × (next_keys here es ≡ x ∷ next_keys (x.0) rest)
          × (length rest < length es)
          × (P x × All P rest))
unfolding seek next_keys
seek-next_keys P here before [] h = inl (refl, refl)
seek-next_keys P here before (x ∷ xs) (p, ps) = elim (Bool-cases (same_bytes here (x.0))) [
  | inr n ↦ inr (x, before, xs, rw n refl, rw n refl, omega arith, (p, ps))
  | inl y ↦ elim (seek-next_keys P here (x ∷ before) xs ps) [
    | inl missing ↦ inl (rw y (missing.0), rw y (missing.1))
    | inr found ↦
        let (z, before', rest, seeks, keys, shorter, all) = found in
        inr (z, before', rest, rw y seeks, rw y keys, omega (arith, shorter), all)
  ]
]

module _ (cmp : Bytes → Bytes → Ordering) (l : Lmdb) (doc : IsDocumented cmp l) {S : Type 0}
    (visit : Callback S KeyVal) (past : Bytes → Result Bool) (stops : Bytes → Bool) where
  iter_between_loop-next_keys :
      (rounds : ℕ) (c : Cursor) (s : S) (before after : List KeyVal) (e : KeyVal)
      → c.cursor ≡ place before (e ∷ after)
      → length after < rounds
      → All (λ (x : KeyVal). past (x.0) ≡ ok (stops (x.0))) after
      → answer_of (iter_between_loop l (reading visit) rounds mdb_next_nodup past c s)
        ≡ for_each visit s (take_until stops (next_keys (e.0) after))
  unfolding iter_between_loop for_each take_until
  iter_between_loop-next_keys zero c s before after e h fuel tests = absurd (omega arith)
  iter_between_loop-next_keys (suc rounds) c s before after e h fuel tests =
      elim (seek-next_keys (λ x. past (x.0) ≡ ok (stops (x.0))) (e.0) (e ∷ before) after tests) [
        | inl missing ↦
            let (p', same, eq) =
              op_get-missing cmp l doc mdb_next_nodup none none c (unfold is_asked in refl)
                (rw h (unfold step advance in missing.0)) in
            rw (eq, missing.1) refl
        | inr found ↦
            let (x, before', rest, seeks, keys, shorter, (test, tests')) = found in
            rw
              (
                op_get-found cmp l doc mdb_next_nodup none none c x (place before' (x ∷ rest))
                    (rw h (unfold step advance in seeks)),
                test,
                keys,
              )
              (elim (Bool-cases (stops (x.0))) [
                | inl stop ↦ rw stop refl
                | inr go ↦ rw go (
                    after_callback (visit s x) (record c { cursor = place before' (x ∷ rest) })
                      (λ c s. iter_between_loop l (reading visit) rounds mdb_next_nodup past c s)
                      (λ s. for_each visit s (take_until stops (next_keys (x.0) rest)))
                      (λ s.
                        iter_between_loop-next_keys rounds _ s before' rest x refl
                          (omega (arith, shorter)) tests'))
              ])
      ]

  -- The loop with either way to move on.
  pub iter_between_loop-behind :
      (skip_duplicates : Bool) (rounds : ℕ) (c : Cursor) (s : S) (before after : List KeyVal)
      (e : KeyVal)
      → c.cursor ≡ place before (e ∷ after)
      → length after < rounds
      → All (λ (x : KeyVal). past (x.0) ≡ ok (stops (x.0))) after
      → answer_of
          (iter_between_loop l (reading visit) rounds (next_op true skip_duplicates) past c s)
        ≡ for_each visit s (take_until stops (behind skip_duplicates e after))
  iter_between_loop-behind false rounds c s before after e h fuel tests =
      iter_between_loop-next cmp l doc visit past stops rounds c s before after e h fuel tests
  iter_between_loop-behind true rounds c s before after e h fuel tests =
      iter_between_loop-next_keys rounds c s before after e h fuel tests
