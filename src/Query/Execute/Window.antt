-- ===== src/Query/Execute/Window.antt =====
-- The callbacks of an unsorted query, run over the objects of its where clauses, compute lists of objects.
use isar_core.Prelude.{ℕ, zero, suc, ◌+◌, ◌-◌, ◌^◌, ◌<◌, ◌≡◌, refl, sym, ap, ◌∙◌, inl, inr, arith}
use isar_core.Prelude.{
  Bool, true, false, ltb, if◌then◌else◌, List, [], ◌∷◌, ◌++◌, length, take, drop, Bool-cases,
}
use isar_core.Error.{Result, ok, err, panic, ◌>>=◌, map_ok}
use isar_core.Query.Execute.{
  Callback, contains, saturating_add, for_each, visit, add_offset_limit_unsorted,
  add_distinct_unsorted, execute_raw, push,
}
use mathlib.Core.List.{append_assoc, append-nil}

module _ {A : Type 0} where
  -- The objects with an id that was not seen before and that the filter takes.
  unfoldable pub wanted : (A → Bool) → List ℕ → List (ℕ × A) → List A
  wanted takes seen [] = []
  wanted takes seen ((id, object) ∷ rest) =
      let old = wanted takes seen rest in
      let new = wanted takes (id ∷ seen) rest in
      if contains seen id then old else (if takes object then object ∷ new else new)

  -- The first of the objects with the same hash.
  unfoldable pub first_of_hash : (A → ℕ) → List ℕ → List A → List A
  first_of_hash hash seen [] = []
  first_of_hash hash seen (object ∷ rest) =
      let old = first_of_hash hash seen rest in
      let new = first_of_hash hash (hash object ∷ seen) rest in
      if contains seen (hash object) then old else object ∷ new

  unfoldable pub concatenated : List (List (ℕ × A)) → List (ℕ × A)
  concatenated [] = []
  concatenated (clause ∷ clauses) = clause ++ concatenated clauses

  take-drop_nil : (m n : ℕ) → take m (drop {A = A} n []) ≡ []
  take-drop_nil zero n = refl
  take-drop_nil (suc m) zero = refl
  take-drop_nil (suc m) (suc n) = refl

module _ {A S : Type 0} where
  -- What `for_each` does after an object.
  abbrev go_on : Callback S A → List A → Result (Bool × S) → Result (Bool × S)
  go_on callback rest r =
      r >>= λ answer. if answer.0 then for_each callback (answer.1) rest else ok answer

  for_each-append :
      (callback : Callback S A) (s : S) (xs ys : List A)
      → for_each callback s (xs ++ ys) ≡ go_on callback ys (for_each callback s xs)
  unfolding for_each
  for_each-append callback s [] ys = refl
  for_each-append callback s (x ∷ xs) ys =
      by_answer (callback s x) (λ t. for_each-append callback t xs ys)
    where
      by_answer :
          (r : Result (Bool × S))
          → ((t : S) → for_each callback t (xs ++ ys) ≡ go_on callback ys (for_each callback t xs))
          → go_on callback (xs ++ ys) r ≡ go_on callback ys (go_on callback xs r)
      by_answer (ok (true, t)) ih = ih t
      by_answer (ok (false, t)) ih = refl
      by_answer (err e) ih = refl
      by_answer panic ih = refl

  -- The window: what the callback sees, when `count` objects have passed.
  pub offset_limit_lem :
      (offset limit : ℕ) (callback : Callback S A) (skip left count : ℕ) (s : S) (xs : List A)
      → skip ≡ offset - count
      → left ≡ (limit + offset - count) - skip
      → count + length xs < 2 ^ 64
      → map_ok
          (λ a. a.1.1)
          (for_each (add_offset_limit_unsorted offset limit callback) (count, s) xs)
        ≡ map_ok (λ a. a.1) (for_each callback s (take left (drop skip xs)))
  unfolding for_each add_offset_limit_unsorted
  offset_limit_lem offset limit callback skip left count s [] e e' h =
      ap (λ (l : List A). map_ok (λ a. a.1) (for_each callback s l)) (sym (take-drop_nil left skip))
  offset_limit_lem offset limit callback (suc skip) left count s (x ∷ xs) e e' h =
      let early : ltb (saturating_add limit offset) (suc count) ≡ false = ground arith in
      let before : ltb offset (suc count) ≡ false = ground arith in
      rw (early, before)
        (offset_limit_lem offset limit callback skip left (suc count) s xs (omega arith)
          (omega arith) (omega arith))
  offset_limit_lem offset limit callback zero zero count s (x ∷ xs) e e' h =
      let late : ltb (saturating_add limit offset) (suc count) ≡ true = ground arith in rw late refl
  offset_limit_lem offset limit callback zero (suc left) count s (x ∷ xs) e e' h =
      let early : ltb (saturating_add limit offset) (suc count) ≡ false = ground arith in
      let inside : ltb offset (suc count) ≡ true = ground arith in
      rw (early, inside)
        (by_answer (callback s x) (λ t.
          offset_limit_lem offset limit callback zero left (suc count) t xs (omega arith)
            (omega arith) (omega arith)))
    where
      by_answer :
          (r : Result (Bool × S))
          → ((t : S)
              → map_ok
                  (λ a. a.1.1)
                  (for_each (add_offset_limit_unsorted offset limit callback) (suc count, t) xs)
                ≡ map_ok (λ a. a.1) (for_each callback t (take left xs)))
          → map_ok
              (λ a. a.1.1)
              (r >>= (λ answer. ok (answer.0, (suc count, answer.1))) >>= (λ answer.
                if answer.0
                then for_each (add_offset_limit_unsorted offset limit callback) (answer.1) xs
                else ok answer))
            ≡ map_ok (λ a. a.1) (go_on callback (take left xs) r)
      by_answer (ok (true, t)) ih = ih t
      by_answer (ok (false, t)) ih = refl
      by_answer (err e) ih = refl
      by_answer panic ih = refl

  pub distinct_lem :
      (hash : A → ℕ) (callback : Callback S A) (seen : List ℕ) (s : S) (xs : List A)
      → map_ok (λ a. a.1.1) (for_each (add_distinct_unsorted hash callback) (seen, s) xs)
        ≡ map_ok (λ a. a.1) (for_each callback s (first_of_hash hash seen xs))
  unfolding for_each add_distinct_unsorted first_of_hash
  distinct_lem hash callback seen s [] = refl
  distinct_lem hash callback seen s (x ∷ xs) = elim (Bool-cases (contains seen (hash x))) [
    | inl e ↦ rw e (distinct_lem hash callback seen s xs)
    | inr e ↦ rw e (by_answer (callback s x) (λ t. distinct_lem hash callback (hash x ∷ seen) t xs))
  ]
    where
      by_answer :
          (r : Result (Bool × S))
          → ((t : S)
              → map_ok
                  (λ a. a.1.1)
                  (for_each (add_distinct_unsorted hash callback) (hash x ∷ seen, t) xs)
                ≡ map_ok (λ a. a.1) (for_each callback t (first_of_hash hash (hash x ∷ seen) xs)))
          → map_ok
              (λ a. a.1.1)
              (r >>= (λ answer. ok (answer.0, (hash x ∷ seen, answer.1))) >>= (λ answer.
                if answer.0
                then for_each (add_distinct_unsorted hash callback) (answer.1) xs
                else ok answer))
            ≡ map_ok (λ a. a.1) (go_on callback (first_of_hash hash (hash x ∷ seen) xs) r)
      by_answer (ok (true, t)) ih = ih t
      by_answer (ok (false, t)) ih = refl
      by_answer (err e) ih = refl
      by_answer panic ih = refl

  pub visit_lem :
      (takes : A → Bool) (callback : Callback S A) (seen : List ℕ) (s : S) (xs : List (ℕ × A))
      → map_ok (λ a. a.1.1) (for_each (visit (λ object. ok (takes object)) callback) (seen, s) xs)
        ≡ map_ok (λ a. a.1) (for_each callback s (wanted takes seen xs))
  unfolding for_each visit wanted
  visit_lem takes callback seen s [] = refl
  visit_lem takes callback seen s ((id, x) ∷ xs) = elim (Bool-cases (contains seen id)) [
    | inl e ↦ rw e (visit_lem takes callback seen s xs)
    | inr e ↦ elim (Bool-cases (takes x)) [
      | inl e' ↦
          rw (e, e') (by_answer (callback s x) (λ t. visit_lem takes callback (id ∷ seen) t xs))
      | inr e' ↦ rw (e, e') (visit_lem takes callback (id ∷ seen) s xs)
    ]
  ]
    where
      by_answer :
          (r : Result (Bool × S))
          → ((t : S)
              → map_ok
                  (λ a. a.1.1)
                  (for_each (visit (λ object. ok (takes object)) callback) (id ∷ seen, t) xs)
                ≡ map_ok (λ a. a.1) (for_each callback t (wanted takes (id ∷ seen) xs)))
          → map_ok
              (λ a. a.1.1)
              (r >>= (λ answer. ok (answer.0, (id ∷ seen, answer.1))) >>= (λ answer.
                if answer.0
                then for_each (visit (λ object. ok (takes object)) callback) (answer.1) xs
                else ok answer))
            ≡ map_ok (λ a. a.1) (go_on callback (wanted takes (id ∷ seen) xs) r)
      by_answer (ok (true, t)) ih = ih t
      by_answer (ok (false, t)) ih = refl
      by_answer (err e) ih = refl
      by_answer panic ih = refl

module _ {A : Type 0} where
  pub for_each-push : (results xs : List A) → for_each push results xs ≡ ok (true, results ++ xs)
  unfolding for_each push
  for_each-push results [] = rw (append-nil results) refl
  for_each-push results (x ∷ xs) =
      for_each-push (results ++ x ∷ []) xs
      ∙ ap (λ (l : List A). ok (true, l)) (append_assoc results (x ∷ []) xs)

  pub execute_raw-concatenated :
      {S : Type 0} (evaluate : A → Result Bool) (callback : Callback S A) (state : List ℕ × S)
      (clauses : List (List (ℕ × A)))
      → execute_raw evaluate callback state clauses
        ≡ map_ok (λ a. a.1) (for_each (visit evaluate callback) state (concatenated clauses))
  unfolding execute_raw concatenated for_each
  execute_raw-concatenated evaluate callback state [] = refl
  execute_raw-concatenated {S} evaluate callback state (clause ∷ clauses) =
      by_answer (for_each (visit evaluate callback) state clause)
        (λ t. execute_raw-concatenated evaluate callback t clauses)
      ∙ ap (map_ok (λ a. a.1))
          (sym (for_each-append (visit evaluate callback) state clause (concatenated clauses)))
    where
      by_answer :
          (r : Result (Bool × (List ℕ × S)))
          → ((t : List ℕ × S)
              → execute_raw evaluate callback t clauses
                ≡ map_ok (λ a. a.1) (for_each (visit evaluate callback) t (concatenated clauses)))
          → (r >>= λ answer.
              if answer.0 then execute_raw evaluate callback (answer.1) clauses else ok (answer.1))
            ≡ map_ok (λ a. a.1) (go_on (visit evaluate callback) (concatenated clauses) r)
      by_answer (ok (true, t)) ih = ih t
      by_answer (ok (false, t)) ih = refl
      by_answer (err e) ih = refl
      by_answer panic ih = refl
