-- ===== src/Txn.antt =====
-- src/txn.rs, src/instance.rs (`begin_txn`) and src/lmdb/txn.rs: transactions. A transaction works on its
-- own copy of the database, of type `D`, until LMDB commits it; `C` is the set of changed watchers.
pub mod Atomic
use isar_core.Prelude.{
  ℕ, zero, suc, ◌+◌, ◌-◌, ◌*◌, ◌^◌, ◌≤◌, ◌<◌, ◌≡◌, refl, sym, ap, ◌∙◌, ◌⊎◌, ◌↔◌, inl, inr, arith,
  compare, Ordering, reverse, is_lt, is_le, is_eq,
}
use isar_core.Prelude.{
  Bool, true, false, not, ◌&&◌, ◌||◌, ltb, leb, ◌==◌, if◌then◌else◌, Option, none, some, List, [],
  ◌∷◌, ◌++◌, map, length, take, drop, get_elem?, All, Bool-cases, Option-cases,
}
use isar_core.Error.{
  Result, ok, err, panic, ◌>>=◌, ◌>>◌, is_ok, IsarError, write_txn_required, transaction_closed,
}

module _ (D C : Type 0) where
  -- What is outside of the transaction: the database on disk, and the notified change sets.
  pub record Store : Type 0 where
    pub database : D
    pub notified : List C

  -- `txn` holds what the transaction has written, and is `none` once it is committed or aborted. The
  -- cursors live as long as it does.
  pub record IsarTxn : Type 0 where
    pub txn : Option D
    pub active : Bool
    pub write : Bool
    pub change_set : Option C

  -- What a job does to the database and the change set, and its result.
  abbrev pub Job : Type 0 → Type 0
  Job A = D → Option C → Result A × D × Option C

abbrev pub notify : {C : Type 0} → Option C → List C → List C
notify none notified = notified
notify (some c) notified = notified ++ c ∷ []

module _ {D C : Type 0} where
  -- `begin_txn` and `IsarTxn::new`, over the change set that `ChangeSet::new` makes. The results of
  -- `env.txn` and of `open_cursors` are those of LMDB.
  unfoldable pub begin_txn :
      (Bool → Result (Unit {0}))
      → Result (Unit {0})
      → C
      → Bool
      → Bool
      → Store D C
      → Result (IsarTxn D C)
  begin_txn env_txn open_cursors new_change_set write silent store = do
    env_txn write
    open_cursors
    ok (record {
      txn = some store.database;
      active = true;
      write = write;
      change_set = if write && not silent then some new_change_set else none;
    })

  -- A read looks at the database.
  unfoldable pub read : {A : Type 0} → (D → Result A) → IsarTxn D C → Result A
  read job t =
      if t.write && is_none t.change_set
      then err transaction_closed
      else (elim (t.txn) [ none ↦ panic | some d ↦ job d ])
    where
      is_none : Option C → Bool
      is_none none = true
      is_none (some c) = false

  -- The transaction is active again after a job that succeeds.
  unfoldable pub run_job : {A : Type 0} → Job D C A → IsarTxn D C → D → Result A × IsarTxn D C
  run_job job t d =
      let (result, d', change_set) = job d t.change_set in
      (result, record t { txn = some d'; active = is_ok result; change_set = change_set })

  unfoldable pub write : {A : Type 0} → Job D C A → IsarTxn D C → Result A × IsarTxn D C
  unfolding run_job
  write job t =
      if not t.write
      then (err write_txn_required, t)
      else (if t.active
          then (elim (t.txn) [
            | none ↦ (panic, record t { active = false })
            | some d ↦ run_job job t d
          ])
          else (err transaction_closed, t))

  -- `commit` and the `drop` behind it, which aborts what is not committed. `mdb_txn_commit` answers the
  -- error of the commit, when there is one.
  unfoldable pub commit :
      (D → Option IsarError) → IsarTxn D C → Store D C → Result (Unit {0}) × Store D C
  commit mdb_txn_commit t store =
      if not t.active
      then (err transaction_closed, store)
      else (if not t.write then (ok tt, store) else (elim (t.txn) [
        | none ↦ (panic, store)
        | some d ↦ elim (mdb_txn_commit d) [
          | some e ↦ (err e, store)
          | none ↦ (ok tt, record { database = d; notified = notify t.change_set store.notified })
        ]
      ]))

  -- Jobs one after another, whatever each of them returns.
  unfoldable pub run : List (Job D C (Unit {0})) → IsarTxn D C → IsarTxn D C
  unfolding write
  run [] t = t
  run (job ∷ jobs) t = run jobs ((write job t).1)
