-- ===== src/Samples/Queries.antt =====
-- A query over numbers that are distinct by their last digit.
use isar_core.Prelude.{ℕ, ◌≡◌, refl, arith}
use isar_core.Prelude.{Bool, leb, some, List, [], ◌∷◌, take, drop}
use isar_core.Prelude.{◌%◌}
use isar_core.Error.{ok}
use isar_core.Query.Execute.{find_unsorted}
use isar_core.Query.Execute.Window.{wanted, first_of_hash, concatenated}
use isar_core.Query.Execute.Found.{find_unsorted-distinct}

abbrev last_digit : ℕ → ℕ
last_digit n = n % 10

abbrev takes : ℕ → Bool
takes n = leb 10 n

-- Two clauses that both yield the object with the id 2.
abbrev clauses : List (List (ℕ × ℕ))
clauses = ((1, 11) ∷ (2, 21) ∷ (3, 12) ∷ []) ∷ ((2, 21) ∷ (4, 7) ∷ (5, 33) ∷ []) ∷ []

-- Of 11, 21, 12 and 33, the window holds 11 and 21, and 21 has the last digit of 11.
unsorted : find_unsorted (some last_digit) 0 2 (λ n. ok (takes n)) clauses ≡ ok (11 ∷ [])
unfolding find_unsorted
unsorted = refl

find_unsorted-distinct_example :
    find_unsorted (some last_digit) 0 2 (λ n. ok (takes n)) clauses
    ≡ ok (first_of_hash last_digit [] (take 2 (drop 0 (wanted takes [] (concatenated clauses)))))
unfolding wanted concatenated
find_unsorted-distinct_example = find_unsorted-distinct last_digit 0 2 takes clauses (omega arith)
