-- ===== src/Mvcc/Runs.antt =====
-- Runs of the manager's methods keep its sets of transactions sound.
use solidity_course_blockcha.Prelude.{
  ℕ, ◌≡◌, refl, inl, inr, some, List, [], ◌∷◌, String, Option-cases, Bool,
}
use solidity_course_blockcha.Mvcc.Version.{IsolationLevel, VersionRecord, Transaction}
use solidity_course_blockcha.Mvcc.Manager.{
  Manager, txn_of, add_write, add_read, begin_transaction, commit_transaction, abort_transaction,
  init,
}
use solidity_course_blockcha.Mvcc.Store.{
  versions_of, put_versions, store_version, write_version, find_visible, read_version,
  delete_version,
}
use solidity_course_blockcha.Mvcc.Outcomes.{
  Wrote, created, updated, write_version-Wrote, Deleted, absent, marked, delete_version-Deleted,
}
use solidity_course_blockcha.Mvcc.Collect.{garbage_collect}
use solidity_course_blockcha.Mvcc.Lifecycle.{
  IsSound, IsSound-init, touched-IsSound, begin-IsSound, abort_transaction-IsSound,
}
use solidity_course_blockcha.Mvcc.Commits.{commit-IsSound, commit-Committed}

-- The calls of the manager.
pub data Call (K D : Type 0) : Type 0 where
  begins : IsolationLevel → ℕ → Call K D
  commits aborts : ℕ → Call K D
  writes : ℕ → ℕ → String → K → D → Call K D
  reads deletes : ℕ → String → K → Call K D
  collects : Call K D

module _ {K D : Type 0} (dec : Discrete K) where
  stored-IsSound :
      (id : ℕ) (table : String) (key : K) (txn : Transaction K) (chain : List (VersionRecord D))
      (m : Manager K D)
      → IsSound m
      → txn_of m id ≡ some txn
      → IsSound (store_version dec id txn table key chain m).0
  unfolding store_version add_write
  stored-IsSound id table key txn chain m s h =
      touched-IsSound m s id txn (add_write dec table key txn) h refl
        (put_versions dec m table key chain) refl

  write-IsSound :
      (now id : ℕ) (table : String) (key : K) (values : D) (m : Manager K D)
      {r : Manager K D × Bool}
      → IsSound m
      → Wrote dec now id table key values m r
      → IsSound r.0
  write-IsSound now id table key values m s (Wrote.unknown h) = s
  write-IsSound now id table key values m s (Wrote.refused v older c b) = s
  write-IsSound now id table key values m s (created txn h c) =
      stored-IsSound id table key txn _ m s h
  write-IsSound now id table key values m s (updated txn v older h c b) =
      stored-IsSound id table key txn _ m s h

  delete-IsSound :
      (id : ℕ) (table : String) (key : K) (m : Manager K D) {r : Manager K D × Bool}
      → IsSound m
      → Deleted dec id table key m r
      → IsSound r.0
  delete-IsSound id table key m s (Deleted.unknown h) = s
  delete-IsSound id table key m s (absent c) = s
  delete-IsSound id table key m s (Deleted.refused v older c b) = s
  delete-IsSound id table key m s (marked txn v older h c b) =
      stored-IsSound id table key txn _ m s h

  read-IsSound :
      (id : ℕ) (table : String) (key : K) (m : Manager K D)
      → IsSound m
      → IsSound (read_version dec id table key m).0
  unfolding read_version add_read
  read-IsSound id table key m s = elim (Option-cases (txn_of m id)) [
    | inl e ↦ rw (e, read_version) s
    | inr (txn, e) ↦
        elim (Option-cases (find_visible dec id txn.snapshot (versions_of dec m table key))) [
          | inl v ↦ rw (e, read_version) (rw v s)
          | inr (v, f) ↦
              rw (e, read_version)
                (rw f
                  (touched-IsSound m s id txn (add_read dec table key txn) e refl m.versions refl))
        ]
  ]

  garbage_collect-IsSound : (m : Manager K D) → IsSound m → IsSound (garbage_collect m).0
  unfolding garbage_collect
  garbage_collect-IsSound m s = record {
    known = s.known;
    state_active = s.state_active;
    active_state = s.active_state;
    own_id = s.own_id;
    below = s.below;
    apart = s.apart;
    committed_below = s.committed_below;
  }

  unfoldable pub call : Manager K D → Call K D → Manager K D
  call m (begins isolation now) = (begin_transaction isolation now m).0
  call m (commits id) = (commit_transaction dec id m).0
  call m (aborts id) = abort_transaction id m
  call m (writes now id table key values) = (write_version dec now id table key values m).0
  call m (reads id table key) = (read_version dec id table key m).0
  call m (deletes id table key) = (delete_version dec id table key m).0
  call m collects = (garbage_collect m).0

  call-IsSound : (m : Manager K D) (c : Call K D) → IsSound m → IsSound (call m c)
  unfolding call
  call-IsSound m (begins isolation now) s = begin-IsSound isolation now m s
  call-IsSound m (commits id) s = commit-IsSound dec id m s (commit-Committed dec id m s)
  call-IsSound m (aborts id) s = abort_transaction-IsSound id m s
  call-IsSound m (writes now id table key values) s =
      write-IsSound now id table key values m s (write_version-Wrote dec now id table key values m)
  call-IsSound m (reads id table key) s = read-IsSound id table key m s
  call-IsSound m (deletes id table key) s =
      delete-IsSound id table key m s (delete_version-Deleted dec id table key m)
  call-IsSound m collects s = garbage_collect-IsSound m s

  unfoldable pub run : Manager K D → List (Call K D) → Manager K D
  run m [] = m
  run m (c ∷ cs) = run (call m c) cs

  run_from : (m : Manager K D) (cs : List (Call K D)) → IsSound m → IsSound (run m cs)
  unfolding run
  run_from m [] s = s
  run_from m (c ∷ cs) s = run_from (call m c) cs (call-IsSound m c s)

  -- Whatever calls are made of a new manager, its sets of transactions stay sound.
  pub run-IsSound : (cs : List (Call K D)) → IsSound (run init cs)
  run-IsSound cs = run_from init cs IsSound-init
