-- ===== src/Distributed/Outcomes.antt =====
-- What a two-phase commit leaves on the other nodes, and in the coordinator's books.
use solidity_course_blockcha.Prelude.{
  ◌≡◌, refl, ap, ◌∙◌, Bool, true, false, Option, none, some, List, [], String, string_discrete,
}
use solidity_course_blockcha.Prelude.Dict
use solidity_course_blockcha.Prelude.Dict.{get-put_self, get-put_ne}
use solidity_course_blockcha.Distributed.Coordinator.{
  TransactionPhase, committed, committing, aborted, changed_in, DistributedTxnState, Database,
  DistributedCoordinator, keys, begin_distributed_txn, prepare, checkpoint_all, finish_commit,
  finish, execute_2pc,
}
use solidity_course_blockcha.Distributed.Visits.{IsIn, visit_other}
use solidity_course_blockcha.Distributed.Commits.{prepared, prepare-visit, checkpoint_all-visit}

module _ {N Row : Type 0} (db : Database N Row) where
  open db use {execute, checkpoint}

  finish_commit_other :
      (c : DistributedCoordinator N) (state : DistributedTxnState) (q : List (String × N) × Bool)
      → (finish_commit db c state q).0.nodes ≡ q.0
  finish_commit_other c state (nodes, true) = refl
  finish_commit_other c state (nodes, false) = refl

  finish_other :
      (c : DistributedCoordinator N) (state : DistributedTxnState)
      (r : List (String × N) × List (String × Bool) × Bool) (id : String)
      → ¬ (IsIn id state.participants)
      → Dict.get string_discrete (finish db c state r).0.nodes id ≡ Dict.get string_discrete r.0 id
  finish_other c state (nodes, votes, false) id out = refl
  finish_other c state (nodes, votes, true) id out =
      ap (λ ns. Dict.get string_discrete ns id)
        (finish_commit_other c (record state { votes = votes })
            (checkpoint_all db state.participants nodes)
          ∙ ap (λ q. q.0) (checkpoint_all-visit db state.participants nodes))
      ∙ visit_other (λ id. checkpoint) state.participants nodes id out

  -- Whatever the outcome, a node that is no participant has the database that it had.
  pub execute_2pc_others :
      (txn : String) (commands : List (String × String)) (c : DistributedCoordinator N)
      (id : String)
      → ¬ (IsIn id (keys commands))
      → Dict.get string_discrete (execute_2pc db txn commands c).0.nodes id
        ≡ Dict.get string_discrete c.nodes id
  unfolding execute_2pc begin_distributed_txn
  execute_2pc_others txn commands c id out =
      finish_other (begin_distributed_txn txn (keys commands) c).0
        (begin_distributed_txn txn (keys commands) c).1
        (prepare db commands (keys commands) c.nodes []) id out
      ∙ ap (λ r. Dict.get string_discrete r.0 id)
          (prepare-visit db commands (keys commands) c.nodes [])
      ∙ visit_other (prepared db commands) (keys commands) c.nodes id out

  -- The phase that goes with what the coordinator returns.
  abbrev pub phase_after : Option Bool → TransactionPhase
  phase_after (some true) = TransactionPhase.committed
  phase_after (some false) = TransactionPhase.aborted
  phase_after none = TransactionPhase.committing

  -- The books have the transaction in a phase.
  abbrev pub HasPhase : DistributedCoordinator N → String → List String → TransactionPhase → Type 0
  HasPhase c txn participants phase =
      (state : DistributedTxnState) × (Dict.get string_discrete c.active_txns txn ≡ some state)
      × (state.phase ≡ phase)
      × (state.participants ≡ participants)

  -- What is in the books is changed there.
  changed_in_books :
      (c : DistributedCoordinator N) (old state : DistributedTxnState)
      → Dict.get string_discrete c.active_txns state.txn_id ≡ some old
      → Dict.get string_discrete (changed_in db c.active_txns state) state.txn_id ≡ some state
  changed_in_books c old state e =
      rw (e, changed_in) (get-put_self string_discrete c.active_txns state.txn_id state)

  finish_commit-HasPhase :
      (c : DistributedCoordinator N) (old state : DistributedTxnState)
      (q : List (String × N) × Bool)
      → Dict.get string_discrete c.active_txns state.txn_id ≡ some old
      → HasPhase
          (finish_commit db c state q).0
          state.txn_id
          state.participants
          (phase_after (finish_commit db c state q).1)
  finish_commit-HasPhase c old state (nodes, true) e =
      (_, changed_in_books c old (record state { phase = committed }) e, refl, refl)
  finish_commit-HasPhase c old state (nodes, false) e =
      (_, changed_in_books c old (record state { phase = committing }) e, refl, refl)

  finish-HasPhase :
      (c : DistributedCoordinator N) (state : DistributedTxnState)
      (r : List (String × N) × List (String × Bool) × Bool)
      → Dict.get string_discrete c.active_txns state.txn_id ≡ some state
      → HasPhase
          (finish db c state r).0
          state.txn_id
          state.participants
          (phase_after (finish db c state r).1)
  finish-HasPhase c state (nodes, votes, false) e =
      (_, changed_in_books c state (record state { votes = votes; phase = aborted }) e, refl, refl)
  finish-HasPhase c state (nodes, votes, true) e =
      finish_commit-HasPhase c state (record state { votes = votes })
        (checkpoint_all db state.participants nodes) e

  -- The transaction stays in the coordinator's books with its participants: committed after True,
  -- aborted after False, and still committing when a checkpoint raised.
  pub execute_2pc-HasPhase :
      (txn : String) (commands : List (String × String)) (c : DistributedCoordinator N)
      → HasPhase
          (execute_2pc db txn commands c).0
          txn
          (keys commands)
          (phase_after (execute_2pc db txn commands c).1)
  unfolding execute_2pc begin_distributed_txn
  execute_2pc-HasPhase txn commands c =
      finish-HasPhase (begin_distributed_txn txn (keys commands) c).0
        (begin_distributed_txn txn (keys commands) c).1
        (prepare db commands (keys commands) c.nodes [])
        (get-put_self string_discrete c.active_txns txn
          (begin_distributed_txn txn (keys commands) c).1)
