-- ===== src/Query/Execute.antt =====
-- src/query/mod.rs: running a query over the objects that its where clauses yield. A callback is a
-- function that also passes its state on; it answers whether to go on.
pub mod Window
pub mod Found
pub mod Sorted
use isar_core.Prelude.{
  ℕ, zero, suc, ◌+◌, ◌-◌, ◌*◌, ◌^◌, ◌≤◌, ◌<◌, ◌≡◌, refl, sym, ap, ◌∙◌, ◌⊎◌, ◌↔◌, inl, inr, arith,
  compare, Ordering, reverse, is_lt, is_le, is_eq,
}
use isar_core.Prelude.{
  Bool, true, false, not, ◌&&◌, ◌||◌, ltb, leb, ◌==◌, if◌then◌else◌, Option, none, some, List, [],
  ◌∷◌, ◌++◌, map, length, any, take, drop, get_elem?, All, Bool-cases, Option-cases,
}
use isar_core.Object.ObjectInfo.{Property}
use isar_core.Object.IsarObject.{IsarObject}
use isar_core.Query.Sort.{Sort, compare_objects}
use isar_core.Error.{Result, ok, err, panic, ◌>>=◌}

abbrev pub Callback : Type 0 → Type 0 → Type 0
Callback S A = S → A → Result (Bool × S)

abbrev pub contains : List ℕ → ℕ → Bool
contains ids id = any (λ other. other == id) ids

-- `usize::saturating_add`.
abbrev pub saturating_add : ℕ → ℕ → ℕ
saturating_add a b = if ltb (a + b) (2 ^ 64) then a + b else 2 ^ 64 - 1

module _ {A : Type 0} where
  -- A callback on one object after another, until it answers false or fails.
  unfoldable pub for_each : {S : Type 0} → Callback S A → S → List A → Result (Bool × S)
  for_each callback s [] = ok (true, s)
  for_each callback s (a ∷ objects) = do
    answer ← callback s a
    if answer.0 then for_each callback (answer.1) objects else ok answer

  -- What the callback of `execute_raw` does with an object: ids that were seen are passed over, and so
  -- are objects that the filter does not take.
  unfoldable pub visit :
      {S : Type 0} → (A → Result Bool) → Callback S A → Callback (List ℕ × S) (ℕ × A)
  visit evaluate callback (result_ids, s) (id, object) =
      if contains result_ids id then ok (true, (result_ids, s)) else (do
        wanted ← evaluate object
        if wanted
            then (do answer ← callback s object; ok (answer.0, (id ∷ result_ids, answer.1)))
            else ok (true, (id ∷ result_ids, s)))

  unfoldable pub add_offset_limit_unsorted :
      {S : Type 0} → ℕ → ℕ → Callback S A → Callback (ℕ × S) A
  add_offset_limit_unsorted offset limit callback (count, s) value =
      if ltb (saturating_add limit offset) (suc count)
      then ok (false, (suc count, s))
      else (if ltb offset (suc count)
          then (do answer ← callback s value; ok (answer.0, (suc count, answer.1)))
          else ok (true, (suc count, s)))

  -- The hash is that of the distinct properties.
  unfoldable pub add_distinct_unsorted :
      {S : Type 0} → (A → ℕ) → Callback S A → Callback (List ℕ × S) A
  add_distinct_unsorted hash callback (hashes, s) object =
      if contains hashes (hash object)
      then ok (true, (hashes, s))
      else (do answer ← callback s object; ok (answer.0, (hash object ∷ hashes, answer.1)))

  -- The order of the two wrappers: the window is outside.
  unfoldable pub unsorted_callback :
      {S : Type 0} → Option (A → ℕ) → ℕ → ℕ → Callback S A → Callback (ℕ × (List ℕ × S)) A
  unfolding add_offset_limit_unsorted add_distinct_unsorted
  unsorted_callback (some hash) offset limit callback =
      add_offset_limit_unsorted offset limit (add_distinct_unsorted hash callback)
  unsorted_callback none offset limit callback =
      add_offset_limit_unsorted offset limit
        (λ s object. do answer ← callback (s.1) object; ok (answer.0, (s.0, answer.1)))

module _ {A : Type 0} where
  -- The clauses as the sequences of ids and objects that they yield.
  unfoldable pub execute_raw :
      {S : Type 0}
      → (A → Result Bool)
      → Callback S A
      → List ℕ × S
      → List (List (ℕ × A))
      → Result (List ℕ × S)
  unfolding for_each visit
  execute_raw evaluate callback state [] = ok state
  execute_raw evaluate callback state (clause ∷ clauses) = do
    answer ← for_each (visit evaluate callback) state clause
    if answer.0 then execute_raw evaluate callback (answer.1) clauses else ok (answer.1)

  unfoldable pub push : Callback (List A) A
  push results object = ok (true, results ++ object ∷ [])

  -- `find_all_vec` without sort properties.
  unfoldable pub find_unsorted :
      Option (A → ℕ) → ℕ → ℕ → (A → Result Bool) → List (List (ℕ × A)) → Result (List A)
  unfolding execute_raw unsorted_callback push
  find_unsorted distinct offset limit evaluate clauses = do
    state ←
        execute_raw evaluate (unsorted_callback distinct offset limit push) ([], (0, ([], [])))
          clauses
    ok (state.1.1.1)

  -- `add_distinct_sorted` on the hashes seen so far.
  unfoldable pub add_distinct_sorted : (A → ℕ) → List ℕ → List A → List A
  add_distinct_sorted hash hashes [] = []
  add_distinct_sorted hash hashes (object ∷ results) =
      let seen = add_distinct_sorted hash hashes results in
      let new = add_distinct_sorted hash (hash object ∷ hashes) results in
      if contains hashes (hash object) then seen else object ∷ new

  abbrev pub add_offset_limit_sorted : ℕ → ℕ → List A → List A
  add_offset_limit_sorted offset limit results = take limit (drop offset results)

-- `find_all_vec` with sort properties. `sort_unstable_by` is that of the standard library, whose comparator
-- may panic.
unfoldable pub find_sorted :
    ((IsarObject → IsarObject → Result Ordering) → List IsarObject → Result (List IsarObject))
    → List (Property × Sort)
    → Option (IsarObject → ℕ)
    → ℕ
    → ℕ
    → (IsarObject → Result Bool)
    → List (List (ℕ × IsarObject))
    → Result (List IsarObject)
unfolding execute_raw push add_distinct_sorted compare_objects
find_sorted sort_unstable_by sort distinct offset limit evaluate clauses = do
  state ← execute_raw evaluate push ([], []) clauses
  results ← sort_unstable_by (compare_objects sort) (state.1)
  ok (
      add_offset_limit_sorted offset limit
        (elim distinct [ none ↦ results | some hash ↦ add_distinct_sorted hash [] results ]))
