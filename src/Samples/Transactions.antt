-- ===== src/Samples/Transactions.antt =====
-- Transactions over a database that is a list of numbers.
use isar_core.Prelude.{ℕ, ◌≡◌, refl}
use isar_core.Prelude.{
  Bool, true, false, ltb, if◌then◌else◌, Option, none, some, List, [], ◌∷◌, length,
}
use isar_core.Error.{
  Result, ◌>>=◌, ok, err, db_full, unique_violated, transaction_closed, IsarError,
}
use isar_core.Txn.{Store, Job, begin_txn, read, write, commit, run}
use isar_core.Txn.Atomic.{run_all, all_or_nothing, commit-all_or_nothing, read-silent}

abbrev put : ℕ → Job (List ℕ) (List ℕ) (Unit {0})
put n d none = (ok tt, n ∷ d, none)
put n d (some c) = (ok tt, n ∷ d, some (n ∷ c))

abbrev fail : Job (List ℕ) (List ℕ) (Unit {0})
fail d c = (err unique_violated, 0 ∷ d, c)

abbrev store : Store (List ℕ) (List ℕ)
store = record { database = 1 ∷ []; notified = [] }

-- A database of more than three numbers is full.
abbrev mdb_txn_commit : List ℕ → Option IsarError
mdb_txn_commit d = if ltb 3 (length d) then some db_full else none

abbrev env_txn : Bool → Result (Unit {0})
env_txn write = ok tt

committed :
    begin_txn env_txn (ok tt) [] true false store
      >>= (λ t. ok (commit mdb_txn_commit (run (put 2 ∷ put 3 ∷ []) t) store))
    ≡ ok (ok tt, record { database = 3 ∷ 2 ∷ 1 ∷ []; notified = (3 ∷ 2 ∷ []) ∷ [] })
unfolding begin_txn run write commit
committed = refl

failed :
    begin_txn env_txn (ok tt) [] true false store
      >>= (λ t. ok (commit mdb_txn_commit (run (put 2 ∷ fail ∷ put 3 ∷ []) t) store))
    ≡ ok (err transaction_closed, store)
unfolding begin_txn run write commit
failed = refl

not_begun : begin_txn env_txn (err db_full) [] true false store ≡ err db_full
unfolding begin_txn
not_begun = refl

commit-all_or_nothing_example :
    begin_txn env_txn (ok tt) [] true false store
      >>= (λ t. ok (commit mdb_txn_commit (run (put 2 ∷ fail ∷ put 3 ∷ []) t) store))
    ≡ ok (
        all_or_nothing mdb_txn_commit
          (run_all (put 2 ∷ fail ∷ put 3 ∷ []) store.database (some []))
          store)
commit-all_or_nothing_example =
    commit-all_or_nothing env_txn (ok tt) mdb_txn_commit (put 2 ∷ fail ∷ put 3 ∷ []) [] false store

read-silent_example :
    begin_txn env_txn (ok tt) [] true true store
      >>= (λ t. ok (read (λ d. ok (length d)) (run (put 2 ∷ []) t)))
    ≡ ok (err transaction_closed)
read-silent_example =
    read-silent env_txn (ok tt) (λ d. ok (length d)) (put 2 ∷ []) [] store ((λ d. refl), tt)
