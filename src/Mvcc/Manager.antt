-- ===== src/Mvcc/Manager.antt =====
-- pysql/mvcc.py: the MVCC manager. A transaction is a shared object: the manager's table of active
-- transactions and the caller hold the same one. `txns` holds every such object under its id, also
-- after its end, and a method takes the id. `active_txns` are the keys of the manager's table.
-- Sets are lists. The lock makes each method one step.
use solidity_course_blockcha.Prelude.{
  ℕ, ◌+◌, min, Bool, true, false, not, ◌&&◌, ◌||◌, String, string_discrete, ℕ_discrete, Option,
  none, some, List, [], ◌∷◌, ◌++◌, ite, ◌==◌, if◌then◌else◌, contains, remove,
}
use solidity_course_blockcha.Prelude.Dict
use solidity_course_blockcha.Mvcc.Version.{
  active, committed, aborted, IsolationLevel, VersionRecord, Transaction, is_active, has_committed,
  set_committed,
}

pub record Manager (K D : Type 0) : Type 0 where
  pub next_txn_id : ℕ
  pub active_txns : List ℕ
  pub txns : List (ℕ × Transaction K)
  pub committed_txns : List ℕ
  pub aborted_txns : List ℕ
  pub versions : List (String × List (K × List (VersionRecord D)))

-- `set.add` on ids
abbrev pub add_id : ℕ → List ℕ → List ℕ
add_id id ids = if contains id ids then ids else id ∷ ids

-- the least of `m` and the ids
abbrev pub min_from : ℕ → List ℕ → ℕ
min_from m [] = m
min_from m (id ∷ ids) = min_from (min m id) ids

-- `min(ids)`, or `other` where there are none
abbrev pub min_or : ℕ → List ℕ → ℕ
min_or other [] = other
min_or other (id ∷ ids) = min_from id ids

abbrev pub chain_of {ℓ} : {A : Type ℓ} → Option (List A) → List A
chain_of none = []
chain_of (some chain) = chain

unfoldable pub init : {K D : Type 0} → Manager K D
init = record {
  next_txn_id = 1;
  active_txns = [];
  txns = [];
  committed_txns = [];
  aborted_txns = [];
  versions = [];
}

abbrev pub txn_of : {K D : Type 0} → Manager K D → ℕ → Option (Transaction K)
txn_of m id = Dict.get ℕ_discrete m.txns id

abbrev pub put_txn : {K D : Type 0} → Manager K D → ℕ → Transaction K → List (ℕ × Transaction K)
put_txn m id txn = Dict.put ℕ_discrete m.txns id txn

-- The object of a transaction that begins, and its snapshot.
unfoldable pub new_txn : {K D : Type 0} → IsolationLevel → ℕ → Manager K D → Transaction K
new_txn isolation now m = record {
  txn_id = m.next_txn_id;
  state = active;
  isolation_level = isolation;
  snapshot = set_committed m.committed_txns (record {
    txn_id = m.next_txn_id;
    active_txns = m.active_txns;
    min_active_txn = min_or m.next_txn_id m.active_txns;
    next_txn_id = m.next_txn_id;
    committed = none;
  });
  start_time = now;
  write_set = [];
  read_set = [];
}

unfoldable pub begin_transaction :
    {K D : Type 0} → IsolationLevel → ℕ → Manager K D → Manager K D × ℕ
begin_transaction isolation now m = (
  record m {
    next_txn_id = m.next_txn_id + 1;
    txns = put_txn m m.next_txn_id (new_txn isolation now m);
    active_txns = m.active_txns ++ m.next_txn_id ∷ [];
  },
  m.next_txn_id,
)

-- Roll back one record: the versions after the abort, none if the record is removed.
unfoldable pub rollback_chain : {D : Type 0} → ℕ → List (VersionRecord D) → List (VersionRecord D)
rollback_chain id [] = []
rollback_chain id (v ∷ []) =
    if v.xmin == id then [] else if v.xmax == id then record v { xmax = 0 } ∷ [] else v ∷ []
rollback_chain id (v ∷ p ∷ older) =
    if v.xmin == id
    then (if p.xmax == id then record p { xmax = 0 } else p) ∷ older
    else if v.xmax == id
    then record v { xmax = 0 } ∷ p ∷ older
    else v ∷ p ∷ older

-- a record that is left, under its key
abbrev pub keep_chain :
    {K D : Type 0}
    → K
    → List (VersionRecord D)
    → List (K × List (VersionRecord D))
    → List (K × List (VersionRecord D))
keep_chain key [] rest = rest
keep_chain key (v ∷ older) rest = (key, v ∷ older) ∷ rest

unfoldable pub rollback_table :
    {K D : Type 0} → ℕ → List (K × List (VersionRecord D)) → List (K × List (VersionRecord D))
rollback_table id [] = []
rollback_table id ((key, chain) ∷ rest) =
    keep_chain key (rollback_chain id chain) (rollback_table id rest)

unfoldable pub rollback :
    {K D : Type 0}
    → ℕ
    → List (String × List (K × List (VersionRecord D)))
    → List (String × List (K × List (VersionRecord D)))
rollback id [] = []
rollback id ((table, chains) ∷ rest) = (table, rollback_table id chains) ∷ rollback id rest

unfoldable pub do_abort : {K D : Type 0} → ℕ → Transaction K → Manager K D → Manager K D
do_abort id txn m = record m {
  txns = put_txn m id (record txn { state = aborted });
  aborted_txns = add_id id m.aborted_txns;
  active_txns = remove id m.active_txns;
  versions = rollback id m.versions;
}

-- An id that no transaction has stands for no call: nothing happens.
unfoldable pub abort_transaction : {K D : Type 0} → ℕ → Manager K D → Manager K D
abort_transaction id m = elim (txn_of m id) [ none ↦ m | some txn ↦ do_abort id txn m ]

module _ {K : Type 0} (dec : Discrete K) where
  -- `(table, key) in pairs`
  unfoldable pub in_set : String → K → List (String × K) → Bool
  in_set table key [] = false
  in_set table key ((t, k) ∷ pairs) =
      if ite (string_discrete t table) true false && ite (dec k key) true false
      then true
      else in_set table key pairs

  unfoldable pub add_pair : String → K → List (String × K) → List (String × K)
  add_pair table key pairs = if in_set table key pairs then pairs else (table, key) ∷ pairs

  unfoldable pub add_write : String → K → Transaction K → Transaction K
  add_write table key txn = record txn { write_set = add_pair table key txn.write_set }

  unfoldable pub add_read : String → K → Transaction K → Transaction K
  add_read table key txn = record txn { read_set = add_pair table key txn.read_set }

  -- `bool(xs & ys)`
  unfoldable pub intersects : List (String × K) → List (String × K) → Bool
  intersects [] ys = false
  intersects ((table, key) ∷ xs) ys = in_set table key ys || intersects xs ys

  abbrev pub conflicts_with : Transaction K → Option (Transaction K) → Bool
  conflicts_with txn none = false
  conflicts_with txn (some other) =
      if other.txn_id == txn.txn_id
      then false
      else if has_committed other.state
      then intersects txn.write_set other.write_set
      else false

  -- the loop of `commit_transaction` over the active transactions
  unfoldable pub has_conflict : List (ℕ × Transaction K) → Transaction K → List ℕ → Bool
  has_conflict txns txn [] = false
  has_conflict txns txn (id ∷ ids) =
      conflicts_with txn (Dict.get ℕ_discrete txns id) || has_conflict txns txn ids

module _ {K D : Type 0} (dec : Discrete K) where
  unfoldable pub commit_transaction : ℕ → Manager K D → Manager K D × Bool
  commit_transaction id m = elim (txn_of m id) [
    | none ↦ (m, false)
    | some txn ↦
        if not (is_active txn.state)
        then (m, false)
        else if has_conflict dec m.txns txn m.active_txns
        then (do_abort id txn m, false)
        else (
          record m {
            txns = put_txn m id (record txn { state = committed });
            committed_txns = add_id id m.committed_txns;
            active_txns = remove id m.active_txns;
          },
          true,
        )
  ]
