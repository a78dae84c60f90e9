-- ===== src/Lmdb/Cursor/Reads.antt =====
-- What the operations of a cursor find, and what the loop of an iteration visits.
use isar_core.Prelude.{ℕ, zero, suc, ◌≤◌, ◌<◌, ◌≡◌, refl, ap, ◌⊎◌, inl, inr, arith, Ordering}
use isar_core.Prelude.{
  Bool, true, false, if◌then◌else◌, Option, none, some, List, [], ◌∷◌, length, All, Bool-cases,
}
use isar_core.Prelude.Bytes.{Bytes}
use isar_core.Error.{Result, ok, err, panic, ◌>>=◌, map_ok}
use isar_core.Lmdb.Errors.{lmdb_result, from_err_code}
use isar_core.Lmdb.Cursor.{KeyVal, Position, Cursor, Lmdb, CursorOp, mdb_next, got, op_get}
use isar_core.Lmdb.Cursor.Iter.{CursorCallback, iter_between_loop}
use isar_core.Lmdb.Cursor.Documented.{IsDocumented, step, is_asked, entries, seek, advance, place}
use isar_core.Query.Execute.{Callback, for_each}

-- A callback that only looks at the entries.
abbrev pub keep_cursor : {S : Type 0} → Cursor → Result (Bool × S) → Result (Bool × Cursor × S)
keep_cursor c r = r >>= λ a. ok (a.0, c, a.1)

abbrev pub reading : {S : Type 0} → Callback S KeyVal → CursorCallback S
reading visit c s key val = keep_cursor c (visit s (key, val))

-- The answer of an iteration and the state of its callback, without the cursor.
abbrev pub answer_of : {S : Type 0} → Result (Bool × Cursor × S) → Result (Bool × S)
answer_of r = map_ok (λ a. (a.0, a.2)) r

unfoldable pub filter : (KeyVal → Bool) → List KeyVal → List KeyVal
filter test [] = []
filter test (e ∷ es) = if test e then e ∷ filter test es else filter test es

unfoldable pub take_until : (Bytes → Bool) → List KeyVal → List KeyVal
take_until stops [] = []
take_until stops (e ∷ es) = if stops (e.0) then [] else e ∷ take_until stops es

unfoldable pub drop_until : (KeyVal → Bool) → List KeyVal → List KeyVal
drop_until test [] = []
drop_until test (e ∷ es) = if test e then e ∷ es else drop_until test es

pub drop_until-here :
    (test : KeyVal → Bool) (e : KeyVal) (es : List KeyVal)
    → test e ≡ true
    → drop_until test (e ∷ es) ≡ e ∷ es
unfolding drop_until
drop_until-here test e es h = rw h refl

-- A search finds the first entry that passes the test, or none does.
pub seek-drop_until :
    (test : KeyVal → Bool) (before es : List KeyVal)
    → ((seek test before es ≡ none) × (drop_until test es ≡ []))
      ⊎ ((e : KeyVal) × (before' : List KeyVal) × (rest : List KeyVal) × (seek test before es
            ≡ some (e, place before' (e ∷ rest)))
          × (drop_until test es ≡ e ∷ rest)
          × (test e ≡ true))
unfolding seek drop_until
seek-drop_until test before [] = inl (refl, refl)
seek-drop_until test before (e ∷ es) = elim (Bool-cases (test e)) [
  | inl h ↦ inr (e, before, es, rw h refl, rw h refl, h)
  | inr h ↦ rw h (seek-drop_until test (e ∷ before) es)
]

pub drop_until-All :
    (P : KeyVal → Type 0) (test : KeyVal → Bool) (es : List KeyVal)
    → All P es
    → All P (drop_until test es)
unfolding drop_until
drop_until-All P test [] h = tt
drop_until-All P test (e ∷ es) (here, later) = elim (Bool-cases (test e)) [
  | inl t ↦ rw t (here, later)
  | inr t ↦ rw t (drop_until-All P test es later)
]

pub length-drop_until :
    (test : KeyVal → Bool) (es : List KeyVal) → length (drop_until test es) ≤ length es
unfolding drop_until
length-drop_until test [] = omega arith
length-drop_until test (e ∷ es) = ground (arith, length-drop_until test es)

-- What follows a callback, in an iteration and in `for_each`.
pub after_callback :
    {S : Type 0} (r : Result (Bool × S)) (c : Cursor)
    (next : Cursor → S → Result (Bool × Cursor × S)) (rest : S → Result (Bool × S))
    → ((s : S) → answer_of (next c s) ≡ rest s)
    → answer_of (keep_cursor c r >>= λ a. elim (a.0) [ true ↦ next (a.1) (a.2) | false ↦ ok a ])
      ≡ (r >>= λ a. if a.0 then rest (a.1) else ok a)
after_callback (ok (true, s)) c next rest h = h s
after_callback (ok (false, s)) c next rest h = refl
after_callback (err e) c next rest h = refl
after_callback panic c next rest h = refl

module _ (cmp : Bytes → Bytes → Ordering) (l : Lmdb) (doc : IsDocumented cmp l) where
  pub op_get-found :
      (op : CursorOp) (key val : Option Bytes) (c : Cursor) (e : KeyVal) (p' : Position)
      → step cmp op key val c.cursor ≡ some (e, p')
      → op_get l op key val c ≡ ok (some e, record c { cursor = p' })
  unfolding op_get got lmdb_result
  op_get-found op key val c e p' h = ap (got l c) (doc.found op key val c.cursor p' e h)

  pub op_get-missing :
      (op : CursorOp) (key val : Option Bytes) (c : Cursor)
      → is_asked op key val ≡ true
      → step cmp op key val c.cursor ≡ none
      → (p' : Position) × (entries p' ≡ entries c.cursor)
        × (op_get l op key val c ≡ ok (none, record c { cursor = p' }))
  unfolding op_get got lmdb_result from_err_code
  op_get-missing op key val c asked h =
      let (e, p', same, eq) = doc.missing op key val c.cursor asked h in (p', same, ap (got l c) eq)

  module _ {S : Type 0} (visit : Callback S KeyVal) where
    -- The loop from an entry on visits the entries behind it, until one stops it.
    pub iter_between_loop-next :
        (past : Bytes → Result Bool) (stops : Bytes → Bool) (rounds : ℕ) (c : Cursor) (s : S)
        (before after : List KeyVal) (e : KeyVal)
        → c.cursor ≡ place before (e ∷ after)
        → length after < rounds
        → All (λ (x : KeyVal). past (x.0) ≡ ok (stops (x.0))) after
        → answer_of (iter_between_loop l (reading visit) rounds mdb_next past c s)
          ≡ for_each visit s (take_until stops after)
    unfolding iter_between_loop for_each take_until
    iter_between_loop-next past stops zero c s before after e h fuel tests = absurd (omega arith)
    iter_between_loop-next past stops (suc rounds) c s before [] e h fuel tests =
        let (p', same, eq) =
          op_get-missing mdb_next none none c (unfold is_asked in refl)
            (rw h (unfold step advance seek in refl)) in
        rw eq refl
    iter_between_loop-next past stops (suc rounds) c s before (x ∷ after) e h fuel (test, tests) =
        rw
          (
            op_get-found mdb_next none none c x (place (e ∷ before) (x ∷ after))
                (rw h (unfold step advance seek in refl)),
            test,
          )
          (elim (Bool-cases (stops (x.0))) [
            | inl stop ↦ rw stop refl
            | inr go ↦ rw go (
                after_callback (visit s x) (record c { cursor = place (e ∷ before) (x ∷ after) })
                  (λ c s. iter_between_loop l (reading visit) rounds mdb_next past c s)
                  (λ s. for_each visit s (take_until stops after))
                  (λ s.
                    iter_between_loop-next past stops rounds _ s (e ∷ before) after x refl
                      (omega arith) tests))
          ])
