-- ===== src/Query/Execute/Found.antt =====
-- Which objects an unsorted query finds, and in which order it applies its window and its distinct
-- properties.
use isar_core.Prelude.{ℕ, ◌^◌, ◌<◌, ◌≡◌, sym, ap, ◌∙◌, arith}
use isar_core.Prelude.{Bool, some, List, [], length, take, drop}
use isar_core.Error.{ok, map_ok, map_ok-map_ok}
use isar_core.Query.Execute.{
  Callback, for_each, visit, add_distinct_unsorted, unsorted_callback, execute_raw, push,
  find_unsorted,
}
use isar_core.Query.Execute.Window.{
  wanted, first_of_hash, concatenated, offset_limit_lem, distinct_lem, visit_lem, for_each-push,
  execute_raw-concatenated,
}

module _ {A : Type 0} where
  -- What a callback leaves after the objects that the where clauses yield.
  pub execute_raw-wanted :
      {S : Type 0} (takes : A → Bool) (callback : Callback S A) (s : S)
      (clauses : List (List (ℕ × A)))
      → map_ok
          (λ state. state.1)
          (execute_raw (λ object. ok (takes object)) callback ([], s) clauses)
        ≡ map_ok (λ a. a.1) (for_each callback s (wanted takes [] (concatenated clauses)))
  execute_raw-wanted takes callback s clauses =
      ap (map_ok (λ state. state.1))
        (execute_raw-concatenated (λ object. ok (takes object)) callback ([], s) clauses)
      ∙ map_ok-map_ok (λ state. state.1) (λ a. a.1)
          (for_each (visit (λ object. ok (takes object)) callback) ([], s) (concatenated clauses))
      ∙ visit_lem takes callback [] s (concatenated clauses)

  -- An unsorted query with distinct properties finds the objects that its where clauses yield and its filter
  -- takes, each id once, then those in the window of the offset and the limit, and of these the first
  -- with each hash of the distinct properties: the window is taken before the duplicates are removed.
  pub find_unsorted-distinct :
      (hash : A → ℕ) (offset limit : ℕ) (takes : A → Bool) (clauses : List (List (ℕ × A)))
      → length (wanted takes [] (concatenated clauses)) < 2 ^ 64
      → find_unsorted (some hash) offset limit (λ object. ok (takes object)) clauses
        ≡ ok (
            first_of_hash hash []
              (take limit (drop offset (wanted takes [] (concatenated clauses)))))
  unfolding find_unsorted unsorted_callback
  find_unsorted-distinct hash offset limit takes clauses h =
      let xs : List A = wanted takes [] (concatenated clauses) in
      let callback = unsorted_callback (some hash) offset limit push in
      sym (
        map_ok-map_ok (λ s. s.1.1) (λ state. state.1)
          (execute_raw (λ object. ok (takes object)) callback ([], (0, ([], []))) clauses))
      ∙ ap (map_ok (λ s. s.1.1)) (execute_raw-wanted takes callback (0, ([], [])) clauses)
      ∙ map_ok-map_ok (λ s. s.1.1) (λ a. a.1) (for_each callback (0, ([], [])) xs)
      ∙ sym (map_ok-map_ok (λ s. s.1) (λ a. a.1.1) (for_each callback (0, ([], [])) xs))
      ∙ ap (map_ok (λ s. s.1)) (
          offset_limit_lem offset limit (add_distinct_unsorted hash push) offset limit 0 ([], []) xs
            (omega arith) (omega arith) (omega arith))
      ∙ map_ok-map_ok (λ s. s.1) (λ a. a.1)
          (for_each (add_distinct_unsorted hash push) ([], []) (take limit (drop offset xs)))
      ∙ distinct_lem hash push [] [] (take limit (drop offset xs))
      ∙ ap (map_ok (λ a. a.1))
          (for_each-push [] (first_of_hash hash [] (take limit (drop offset xs))))
