-- ===== src/Checks/Mvcc.antt =====
-- pysql/mvcc.py at small inputs: keys and rows are numbers, the table is "t".
use solidity_course_blockcha.Prelude.{
  ℕ, ◌≡◌, ◌↔◌, refl, inl, none, some, List, [], ◌∷◌, true, false, arith, contains, string_discrete,
  ℕ_discrete,
}
use solidity_course_blockcha.Prelude.Dict
use solidity_course_blockcha.Mvcc.Version.{
  active, IsolationLevel, VersionRecord, TransactionSnapshot, Transaction, is_committed,
  set_committed, is_visible_to,
}
use solidity_course_blockcha.Mvcc.Manager.{
  Manager, init, new_txn, begin_transaction, commit_transaction, abort_transaction, do_abort,
  rollback, rollback_table, rollback_chain, add_write, add_read, add_pair, in_set, intersects,
  has_conflict,
}
use solidity_course_blockcha.Mvcc.Store.{
  versions_of, is_locked, store_version, write_version, read_version, delete_version, find_visible,
}
use solidity_course_blockcha.Mvcc.Collect.{trim, collect_table, collect, garbage_collect, get_stats}
use solidity_course_blockcha.Mvcc.Visibility.{Visible, is_visible_to_iff}
use solidity_course_blockcha.Mvcc.Reads.{read-write_version}
use solidity_course_blockcha.Mvcc.Conflicts.{write_write_accepted, delete_locks}
use solidity_course_blockcha.Mvcc.Aborts.{abort-write_version, abort_resurrects}
use solidity_course_blockcha.Mvcc.Lifecycle.{IsSound}
use solidity_course_blockcha.Mvcc.Commits.{commit_never_refused}
use solidity_course_blockcha.Mvcc.Runs.{
  Call, begins, commits, writes, deletes, call, run, run-IsSound,
}

program : Unit {0}
unfolding is_committed set_committed is_visible_to init new_txn begin_transaction commit_transaction
    abort_transaction do_abort rollback rollback_table rollback_chain add_write add_read add_pair
    in_set intersects has_conflict is_locked store_version write_version read_version delete_version
    find_visible trim collect_table collect garbage_collect get_stats call run Dict.get Dict.put
    string_discrete ℕ_discrete
program = tt

abbrev starts : Call ℕ ℕ
starts = begins IsolationLevel.snapshot 0

-- Transaction 1 writes 10 under key 5 and commits; 2 and 3 are active.
abbrev setup : List (Call ℕ ℕ)
setup = starts ∷ writes 0 1 "t" 5 10 ∷ commits 1 ∷ starts ∷ starts ∷ []

abbrev two_active : Manager ℕ ℕ
unfolding program
two_active = run ℕ_discrete init setup

reads_committed : (read_version ℕ_discrete 2 "t" 5 two_active).1 ≡ some 10
unfolding program
reads_committed = refl

run-IsSound_example : IsSound (run ℕ_discrete init setup)
run-IsSound_example = run-IsSound ℕ_discrete setup

-- the snapshot and the object of transaction 2
abbrev snapshot_2 : TransactionSnapshot
snapshot_2 = record {
  txn_id = 2;
  active_txns = [];
  min_active_txn = 2;
  next_txn_id = 2;
  committed = some (1 ∷ []);
}

abbrev txn_2 : Transaction ℕ
txn_2 = record {
  txn_id = 2;
  state = active;
  isolation_level = IsolationLevel.snapshot;
  snapshot = snapshot_2;
  start_time = 0;
  write_set = [];
  read_set = [];
}

abbrev version_1 : VersionRecord ℕ
version_1 = record { values = 10; xmin = 1; xmax = 0; created_at = 0 }

is_visible_to_iff_example :
    (is_visible_to version_1 2 snapshot_2 ≡ true) ↔ Visible version_1 2 snapshot_2
unfolding is_committed
is_visible_to_iff_example = is_visible_to_iff version_1 2 snapshot_2 (omega arith) (λ x h. refl)

read-write_version_example :
    (read_version ℕ_discrete 2 "t" 5 (write_version ℕ_discrete 0 3 "t" 5 30 two_active).0).1
    ≡ (read_version ℕ_discrete 2 "t" 5 two_active).1
unfolding program
read-write_version_example =
    read-write_version ℕ_discrete 2 3 txn_2 two_active (omega arith) (omega arith) refl refl "t" 5
      (inl refl) 0 30 "t" 5

commit_never_refused_example :
    ((commit_transaction ℕ_discrete 2 two_active).1 ≡ true)
    × (contains 2 (commit_transaction ℕ_discrete 2 two_active).0.committed_txns ≡ true)
    × (contains 2 (commit_transaction ℕ_discrete 2 two_active).0.active_txns ≡ false)
unfolding program
commit_never_refused_example =
    commit_never_refused ℕ_discrete 2 two_active txn_2 (run-IsSound ℕ_discrete setup) refl refl

-- Transactions 2 and 3 overwrite the same record while both are active, and both commit.
write_write_accepted_example :
    (write_version ℕ_discrete 0 3 "t" 5 30 (write_version ℕ_discrete 0 2 "t" 5 20 two_active).0).1
    ≡ true
unfolding program
write_write_accepted_example =
    write_write_accepted ℕ_discrete 0 0 2 3 "t" 5 20 30 two_active
      (record txn_2 {
        txn_id = 3;
        snapshot = record snapshot_2 { txn_id = 3; active_txns = 2 ∷ []; next_txn_id = 3 };
      })
      refl refl

delete_locks_example :
    (write_version ℕ_discrete 0 2 "t" 5 20 (delete_version ℕ_discrete 3 "t" 5 two_active).0
      ≡ ((delete_version ℕ_discrete 3 "t" 5 two_active).0, false))
    × (delete_version ℕ_discrete 2 "t" 5 (delete_version ℕ_discrete 3 "t" 5 two_active).0
        ≡ ((delete_version ℕ_discrete 3 "t" 5 two_active).0, false))
unfolding program
delete_locks_example =
    delete_locks ℕ_discrete 0 3 2 "t" 5 20 two_active txn_2 (omega arith) (omega arith) refl refl
      refl

abort-write_version_example :
    versions_of ℕ_discrete
      (abort_transaction 2 (write_version ℕ_discrete 0 2 "t" 5 20 two_active).0)
      "t"
      5
    ≡ version_1 ∷ []
unfolding program
abort-write_version_example = abort-write_version ℕ_discrete 0 2 "t" 5 20 two_active (refl, tt) refl

-- Transaction 1 writes a record, 2 deletes it and commits, 3 writes it, 4 has begun.
abbrev deleted_once : Manager ℕ ℕ
unfolding program
deleted_once = run ℕ_discrete init (
    starts
    ∷ writes 0 1 "t" 5 10
    ∷ commits 1
    ∷ starts
    ∷ deletes 2 "t" 5
    ∷ commits 2
    ∷ starts
    ∷ starts
    ∷ [])

abbrev snapshot_4 : TransactionSnapshot
snapshot_4 = record {
  txn_id = 4;
  active_txns = 3 ∷ [];
  min_active_txn = 3;
  next_txn_id = 4;
  committed = some (2 ∷ 1 ∷ []);
}

abort_resurrects_example :
    (is_visible_to (record version_1 { xmax = 2 }) 4 snapshot_4 ≡ false)
    × (find_visible ℕ_discrete 4 snapshot_4 (
          versions_of ℕ_discrete
            (abort_transaction 3 (write_version ℕ_discrete 0 3 "t" 5 30 deleted_once).0)
            "t"
            5)
        ≡ some version_1)
unfolding program
abort_resurrects_example =
    abort_resurrects ℕ_discrete 0 3 "t" 5 30 deleted_once (record version_1 { xmax = 2 }) [] 4
      snapshot_4 (refl, tt) refl refl (omega arith) (omega arith) (refl, refl) (omega arith)
      (refl, refl)

-- Transaction 2 writes a record twice while 3 begins, and commits. Transaction 3 still sees the row
-- of transaction 1; the collection takes that version away from it.
abbrev before_collection : Manager ℕ ℕ
unfolding program
before_collection = run ℕ_discrete init (
    starts
    ∷ writes 0 1 "t" 5 10
    ∷ commits 1
    ∷ starts
    ∷ starts
    ∷ writes 0 2 "t" 5 20
    ∷ writes 0 2 "t" 5 21
    ∷ commits 2
    ∷ [])

collection_loses_row :
    ((read_version ℕ_discrete 3 "t" 5 before_collection).1 ≡ some 10)
    × ((read_version ℕ_discrete 3 "t" 5 (garbage_collect before_collection).0).1 ≡ none)
unfolding program
collection_loses_row = (refl, refl)

statistics : get_stats before_collection ≡ record {
  active_transactions = 1;
  committed_transactions = 2;
  aborted_transactions = 0;
  total_versions = 3;
  tables_with_versions = 1;
}
unfolding program
statistics = refl
