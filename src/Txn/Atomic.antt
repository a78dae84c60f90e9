-- ===== src/Txn/Atomic.antt =====
-- A write transaction is all or nothing.
use isar_core.Prelude.{◌≡◌, refl, ap, ◌∙◌, arith}
use isar_core.Prelude.{
  Bool, true, false, not, ◌&&◌, if◌then◌else◌, Option, none, some, List, [], ◌∷◌, All,
}
use isar_core.Error.{Result, ok, err, panic, ◌>>=◌, ◌>>◌, is_ok, IsarError, transaction_closed}
use isar_core.Txn.{Store, IsarTxn, Job, begin_txn, read, write, run_job, commit, run, notify}

module _ {D C : Type 0} where
  -- What the jobs do together: they stop at the first that does not succeed.
  unfoldable pub run_all : List (Job D C (Unit {0})) → D → Option C → Option (D × Option C)
  run_all [] d c = some (d, c)
  run_all (job ∷ jobs) d c =
      let (result, d', c') = job d c in
      let rest = run_all jobs d' c' in if is_ok result then rest else none

  abbrev silent_txn : Option D → Bool → IsarTxn D C
  silent_txn txn active = record { txn = txn; active = active; write = true; change_set = none }

  write-silent_txn :
      (job : Job D C (Unit {0})) (txn : Option D) (active : Bool)
      → ((d : D) → (job d none).2 ≡ none)
      → (txn' : Option D) × (active' : Bool) × ((write job (silent_txn txn active)).1
          ≡ silent_txn txn' active')
  unfolding write run_job
  write-silent_txn job txn false quiet = (txn, false, refl)
  write-silent_txn job none true quiet = (none, false, refl)
  write-silent_txn job (some d) true quiet =
      (some ((job d none).1), is_ok ((job d none).0), rw (quiet d) refl)

  run-silent_txn :
      (jobs : List (Job D C (Unit {0}))) (txn : Option D) (active : Bool)
      → All (λ (j : Job D C (Unit {0})). (d : D) → (j d none).2 ≡ none) jobs
      → (txn' : Option D) × (active' : Bool) × (run jobs (silent_txn txn active)
          ≡ silent_txn txn' active')
  unfolding run
  run-silent_txn [] txn active quiet = (txn, active, refl)
  run-silent_txn (job ∷ jobs) txn active (quiet, quiets) =
      let (txn₁, active₁, e) = write-silent_txn job txn active quiet in
      let (txn₂, active₂, e') = run-silent_txn jobs txn₁ active₁ quiets in
      (txn₂, active₂, ap (run jobs) e ∙ e')

  -- What a caller sees of a transaction: all that the jobs did, once LMDB has committed it, or nothing.
  unfoldable pub all_or_nothing :
      (D → Option IsarError) → Option (D × Option C) → Store D C → Result (Unit {0}) × Store D C
  all_or_nothing mdb_txn_commit none store = (err transaction_closed, store)
  all_or_nothing mdb_txn_commit (some (d, c)) store = elim (mdb_txn_commit d) [
    | some e ↦ (err e, store)
    | none ↦ (ok tt, record { database = d; notified = notify c store.notified })
  ]

  -- A closed transaction stays closed.
  run-closed :
      (jobs : List (Job D C (Unit {0}))) (t : IsarTxn D C)
      → t.active ≡ false
      → (run jobs t).active ≡ false
  unfolding run write
  run-closed [] t h = h
  run-closed (job ∷ jobs) t h = run-closed jobs ((write job t).1) (ground (arith, h))

  commit-closed :
      (mdb_txn_commit : D → Option IsarError) (t : IsarTxn D C) (store : Store D C)
      → t.active ≡ false
      → commit mdb_txn_commit t store ≡ (err transaction_closed, store)
  unfolding commit
  commit-closed mdb_txn_commit t store h = rw h refl

  run-run_all :
      (mdb_txn_commit : D → Option IsarError) (jobs : List (Job D C (Unit {0}))) (d : D)
      (c : Option C) (store : Store D C)
      → commit mdb_txn_commit
          (run jobs (record { txn = some d; active = true; write = true; change_set = c }))
          store
        ≡ all_or_nothing mdb_txn_commit (run_all jobs d c) store
  unfolding run run_all write run_job commit all_or_nothing
  run-run_all mdb_txn_commit [] d c store = refl
  run-run_all mdb_txn_commit (job ∷ jobs) d c store =
      by_result ((job d c).0) (run-run_all mdb_txn_commit jobs ((job d c).1) ((job d c).2) store)
    where
      before : Result (Unit {0}) → IsarTxn D C
      before r = record {
        txn = some ((job d c).1);
        active = is_ok r;
        write = true;
        change_set = (job d c).2;
      }

      by_result :
          (r : Result (Unit {0}))
          → commit mdb_txn_commit (run jobs (before (ok tt))) store
            ≡ all_or_nothing mdb_txn_commit (run_all jobs ((job d c).1) ((job d c).2)) store
          → commit mdb_txn_commit (run jobs (before r)) store
            ≡ all_or_nothing mdb_txn_commit
                (if is_ok r then run_all jobs ((job d c).1) ((job d c).2) else none)
                store
      by_result (ok tt) rest = rest
      by_result (err e) rest =
          commit-closed mdb_txn_commit (run jobs (before (err e))) store
            (run-closed jobs (before (err e)) refl)
      by_result panic rest =
          commit-closed mdb_txn_commit (run jobs (before panic)) store
            (run-closed jobs (before panic) refl)

  begin_txn-rest :
      {B : Type 0} (env_txn open_cursors : Result (Unit {0})) (t : IsarTxn D C)
      (f : IsarTxn D C → B)
      → (env_txn >> (open_cursors >> ok t)) >>= (λ t. ok (f t))
        ≡ (env_txn >> (open_cursors >> ok (f t)))
  begin_txn-rest (ok _) (ok _) t f = refl
  begin_txn-rest (ok _) (err e) t f = refl
  begin_txn-rest (ok _) panic t f = refl
  begin_txn-rest (err e) open_cursors t f = refl
  begin_txn-rest panic open_cursors t f = refl

  -- A write transaction on which jobs run one after another is all or nothing: when each of them succeeds
  -- and LMDB commits, the database is what they made of it together, and the change set, if the
  -- transaction is not silent, is notified; when one fails, the commit answers that the transaction is
  -- closed, whatever jobs follow it, and when LMDB fails it answers that error, and in both cases nothing
  -- outside of the transaction has changed. Where LMDB does not begin the transaction or open its cursors,
  -- there is its error and no transaction.
  pub commit-all_or_nothing :
      (env_txn : Bool → Result (Unit {0})) (open_cursors : Result (Unit {0}))
      (mdb_txn_commit : D → Option IsarError) (jobs : List (Job D C (Unit {0})))
      (new_change_set : C) (silent : Bool) (store : Store D C)
      → begin_txn env_txn open_cursors new_change_set true silent store
          >>= (λ t. ok (commit mdb_txn_commit (run jobs t) store))
        ≡ (env_txn true
            >> (open_cursors
                >> ok (
                    all_or_nothing mdb_txn_commit
                      (run_all jobs store.database (if silent then none else some new_change_set))
                      store)))
  unfolding begin_txn
  commit-all_or_nothing env_txn open_cursors mdb_txn_commit jobs new_change_set silent store =
      begin_txn-rest (env_txn true) open_cursors _ (λ t. commit mdb_txn_commit (run jobs t) store)
      ∙ ap (λ outcome. env_txn true >> (open_cursors >> ok outcome)) (by_silent silent)
    where
      by_silent :
          (silent : Bool)
          → commit mdb_txn_commit
              (run jobs (record {
                txn = some store.database;
                active = true;
                write = true;
                change_set = if true && not silent then some new_change_set else none;
              }))
              store
            ≡ all_or_nothing mdb_txn_commit
                (run_all jobs store.database (if silent then none else some new_change_set))
                store
      by_silent true = run-run_all mdb_txn_commit jobs store.database none store
      by_silent false = run-run_all mdb_txn_commit jobs store.database (some new_change_set) store

  -- No read succeeds in a silent write transaction that has begun, whatever jobs ran before: each answers
  -- that the transaction is closed, as long as no job puts a change set where there is none.
  pub read-silent :
      {A : Type 0} (env_txn : Bool → Result (Unit {0})) (open_cursors : Result (Unit {0}))
      (job : D → Result A) (jobs : List (Job D C (Unit {0}))) (new_change_set : C)
      (store : Store D C)
      → All (λ (j : Job D C (Unit {0})). (d : D) → (j d none).2 ≡ none) jobs
      → begin_txn env_txn open_cursors new_change_set true true store
          >>= (λ t. ok (read job (run jobs t)))
        ≡ (env_txn true >> (open_cursors >> ok (err transaction_closed)))
  unfolding begin_txn read
  read-silent env_txn open_cursors job jobs new_change_set store quiet =
      let (txn, active, e) = run-silent_txn jobs (some store.database) true quiet in
      begin_txn-rest (env_txn true) open_cursors _ (λ t. read job (run jobs t))
      ∙ ap (λ outcome. env_txn true >> (open_cursors >> ok outcome)) (ap (read job) e)
