-- ===== src/Mvcc/Version.antt =====
-- pysql/mvcc.py: versions, snapshots and transactions. `K` is the type of keys, `D` that of a row's
-- values. Clock readings are numbers of ticks. A VersionRecord with the records that
-- `prev_version` leads to is a list of versions, the newest first, and None is the empty list.
-- The snapshot of a transaction is never None, since `begin_transaction` sets it.
use solidity_course_blockcha.Prelude.{
  ℕ, Bool, true, false, not, ◌&&◌, String, Option, none, some, List, ltb, ◌==◌, if◌then◌else◌,
  contains,
}

pub data TransactionState : Type 0 where
  active committed aborted : TransactionState

pub data IsolationLevel : Type 0 where
  read_uncommitted read_committed repeatable_read snapshot serializable : IsolationLevel

pub record VersionRecord (D : Type 0) : Type 0 where
  pub values : D
  pub xmin : ℕ
  pub xmax : ℕ
  pub created_at : ℕ

pub record TransactionSnapshot : Type 0 where
  pub txn_id : ℕ
  pub active_txns : List ℕ
  pub min_active_txn : ℕ
  pub next_txn_id : ℕ
  pub committed : Option (List ℕ)

pub record Transaction (K : Type 0) : Type 0 where
  pub txn_id : ℕ
  pub state : TransactionState
  pub isolation_level : IsolationLevel
  pub snapshot : TransactionSnapshot
  pub start_time : ℕ
  pub write_set : List (String × K)
  pub read_set : List (String × K)

abbrev pub is_active : TransactionState → Bool
is_active active = true
is_active committed = false
is_active aborted = false

abbrev pub has_committed : TransactionState → Bool
has_committed active = false
has_committed committed = true
has_committed aborted = false

unfoldable pub is_committed : TransactionSnapshot → ℕ → Bool
is_committed s id = elim s.committed [
  | some ids ↦ contains id ids
  | none ↦ ltb id s.next_txn_id && not (contains id s.active_txns)
]

unfoldable pub set_committed : List ℕ → TransactionSnapshot → TransactionSnapshot
set_committed ids s = record s { committed = some ids }

unfoldable pub is_visible_to : {D : Type 0} → VersionRecord D → ℕ → TransactionSnapshot → Bool
is_visible_to v id s =
    if v.xmin == id
    then if v.xmax == id then false else if v.xmax == 0 then true else not (is_committed s v.xmax)
    else if not (is_committed s v.xmin)
    then false
    else if contains v.xmin s.active_txns
    then false
    else if v.xmax == 0
    then true
    else if v.xmax == id
    then false
    else if not (is_committed s v.xmax)
    then true
    else if contains v.xmax s.active_txns
    then true
    else false
