-- ===== src/Distributed/Coordinator.antt =====
-- pysql/distributed.py. The databases of the cluster are given from outside: `N` is the state of one,
-- and each has its own. A dict is an association list; strings are its keys.
use solidity_course_blockcha.Prelude.{
  ℕ, ◌%◌, ◌++◌, Bool, true, false, Option, none, some, List, [], ◌∷◌, String, string_discrete,
  length, get_elem?, if◌then◌else◌,
}
use solidity_course_blockcha.Prelude.Dict

pub data TransactionPhase : Type 0 where
  init preparing prepared committing committed aborting aborted : TransactionPhase

pub record DistributedTxnState : Type 0 where
  pub txn_id : String
  pub phase : TransactionPhase
  pub participants : List String
  pub votes : List (String × Bool)

pub record QueryResult (Row : Type 0) : Type 0 where
  pub columns : List String
  pub rows : List Row
  pub affected_rows : ℕ
  pub message : String

-- A node's Database, pysql/engine.py: `execute` gives `none` where it raises, and `checkpoint` says
-- whether it returned.
pub record Database (N Row : Type 0) : Type 0 where
  pub execute : String → N → N × Option (QueryResult Row)
  pub checkpoint : N → N × Bool

pub record DistributedCoordinator (N : Type 0) : Type 0 where
  pub node_id : String
  pub nodes : List (String × N)
  pub shards : List String
  pub active_txns : List (String × DistributedTxnState)

abbrev pub keys {ℓ} : {A : Type ℓ} → List (String × A) → List String
keys [] = []
keys ((k, v) ∷ d) = k ∷ keys d

unfoldable pub new_coordinator :
    {N : Type 0} → String → List (String × N) → DistributedCoordinator N
new_coordinator node_id cluster_nodes = record {
  node_id = node_id;
  nodes = cluster_nodes;
  shards = keys cluster_nodes;
  active_txns = [];
}

-- The shard of a key whose MD5 digest, as a number, is `hash_val`; `none` is the ZeroDivisionError
-- of a partitioner without shards.
unfoldable pub get_shard : ℕ → List String → Option String
get_shard hash_val [] = none
get_shard hash_val (s ∷ shards) = get_elem? (s ∷ shards) (hash_val % length (s ∷ shards))

unfoldable pub begin_distributed_txn :
    {N : Type 0}
    → String
    → List String
    → DistributedCoordinator N
    → DistributedCoordinator N × DistributedTxnState
begin_distributed_txn id participants c =
    let state : DistributedTxnState = record {
      txn_id = id;
      phase = init;
      participants = participants;
      votes = [];
    } in
    (record c { active_txns = Dict.put string_discrete c.active_txns id state }, state)

-- the schema of the first result that has columns
abbrev pub first_schema : List String → List String → List String
first_schema [] columns = columns
first_schema (s ∷ schema) columns = s ∷ schema

module _ {N Row : Type 0} (db : Database N Row) where
  open db use {execute, checkpoint}

  abbrev pub voted : N × Option (QueryResult Row) → N × Bool
  voted (node, none) = (node, false)
  voted (node, some r) = (node, true)

  -- `node.execute(commands[node_id])` in its try block
  abbrev pub attempt : Option String → N → N × Bool
  attempt none node = (node, false)
  attempt (some cmd) node = voted (execute cmd node)

  -- The loop of the first phase: the nodes after it, the votes, and `all_ok`.
  unfoldable pub prepare :
      List (String × String)
      → List String
      → List (String × N)
      → List (String × Bool)
      → List (String × N) × List (String × Bool) × Bool
  prepare commands [] nodes votes = (nodes, votes, true)
  prepare commands (id ∷ ids) nodes votes = elim (Dict.get string_discrete nodes id) [
    | none ↦ (nodes, Dict.put string_discrete votes id false, false)
    | some node ↦
        let (node', ok) = attempt (Dict.get string_discrete commands id) node in
        let nodes' = Dict.put string_discrete nodes id node' in
        let votes' = Dict.put string_discrete votes id ok in
        let rest = prepare commands ids nodes' votes' in
        if ok then rest else (nodes', votes', false)
  ]

  -- The loop of the second phase on a commit. An exception leaves the nodes before it done.
  unfoldable pub checkpoint_all : List String → List (String × N) → List (String × N) × Bool
  checkpoint_all [] nodes = (nodes, true)
  checkpoint_all (id ∷ ids) nodes = elim (Dict.get string_discrete nodes id) [
    | none ↦ (nodes, false)
    | some node ↦
        let (node', ok) = checkpoint node in
        let nodes' = Dict.put string_discrete nodes id node' in
        let rest = checkpoint_all ids nodes' in if ok then rest else (nodes', false)
  ]

  -- The books hold the transaction's state object, which the methods change: where the books have
  -- one under the id, it is as it is now.
  abbrev pub changed_in :
      List (String × DistributedTxnState)
      → DistributedTxnState
      → List (String × DistributedTxnState)
  changed_in txns state = elim (Dict.get string_discrete txns state.txn_id) [
    | none ↦ txns
    | some old ↦ Dict.put string_discrete txns state.txn_id state
  ]

  abbrev pub with_state :
      DistributedCoordinator N → List (String × N) → DistributedTxnState → DistributedCoordinator N
  with_state c nodes state = record c {
    nodes = nodes;
    active_txns = changed_in c.active_txns state;
  }

  abbrev pub finish_commit :
      DistributedCoordinator N
      → DistributedTxnState
      → List (String × N) × Bool
      → DistributedCoordinator N × Option Bool
  finish_commit c state (nodes, true) =
      (with_state c nodes (record state { phase = committed }), some true)
  finish_commit c state (nodes, false) =
      (with_state c nodes (record state { phase = committing }), none)

  -- The second phase. On an abort it changes no node: the body of that loop is empty.
  abbrev pub finish :
      DistributedCoordinator N
      → DistributedTxnState
      → List (String × N) × List (String × Bool) × Bool
      → DistributedCoordinator N × Option Bool
  finish c state (nodes, votes, false) =
      (with_state c nodes (record state { votes = votes; phase = aborted }), some false)
  finish c state (nodes, votes, true) =
      finish_commit c (record state { votes = votes }) (checkpoint_all state.participants nodes)

  -- `none` is the exception of a checkpoint.
  unfoldable pub execute_2pc :
      String
      → List (String × String)
      → DistributedCoordinator N
      → DistributedCoordinator N × Option Bool
  execute_2pc id commands c =
      let (c', state) = begin_distributed_txn id (keys commands) c in
      finish c' state (prepare commands (keys commands) c'.nodes [])

  -- The loop of `execute_scatter_gather`; `none` is the exception of a node.
  unfoldable pub gather :
      String
      → List (String × N)
      → List String
      → List Row
      → List (String × N) × Option (QueryResult Row)
  gather sql [] schema rows = (
    [],
    some (record { columns = schema; rows = rows; affected_rows = length rows; message = "" }),
  )
  gather sql ((id, node) ∷ nodes) schema rows = elim (execute sql node).1 [
    | none ↦ ((id, (execute sql node).0) ∷ nodes, none)
    | some r ↦
        let (nodes', result) = gather sql nodes (first_schema schema r.columns) (rows ++ r.rows) in
        ((id, (execute sql node).0) ∷ nodes', result)
  ]

  unfoldable pub execute_scatter_gather :
      String → DistributedCoordinator N → DistributedCoordinator N × Option (QueryResult Row)
  execute_scatter_gather sql c =
      let (nodes, result) = gather sql c.nodes [] [] in (record c { nodes = nodes }, result)
