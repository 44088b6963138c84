-- ===== src/Distributed/Commits.antt =====
-- What a two-phase commit leaves on the nodes that take part.
use solidity_course_blockcha.Prelude.{
  ◌≡◌, ◌≢◌, refl, ap, sym, ◌∙◌, inl, inr, Bool, true, false, Option, none, some, List, [], ◌∷◌,
  String, string_discrete, Option-cases, Bool-cases, arith,
}
use solidity_course_blockcha.Prelude.Dict
use solidity_course_blockcha.Prelude.Dict.{get-put_self, get-put_ne}
use solidity_course_blockcha.Distributed.Coordinator.{
  DistributedTxnState, Database, DistributedCoordinator, QueryResult, voted, keys,
  begin_distributed_txn, attempt, prepare, checkpoint_all, finish_commit, finish, execute_2pc,
}
use solidity_course_blockcha.Distributed.Visits.{
  IsIn, Distinct, some_eq, visit, visit_end, visit_missing, visit_next, visit_failed, visit_first,
  visit-Done,
}

module _ {N Row : Type 0} (db : Database N Row) where
  open db use {execute, checkpoint}

  -- The first phase on a node.
  abbrev pub prepared : List (String × String) → String → N → N × Bool
  prepared commands id node = attempt db (Dict.get string_discrete commands id) node

  pub prepare-visit :
      (commands : List (String × String)) (ids : List String) (nodes : List (String × N))
      (votes : List (String × Bool))
      → ((prepare db commands ids nodes votes).0, (prepare db commands ids nodes votes).2)
        ≡ visit (prepared commands) ids nodes
  unfolding prepare
  prepare-visit commands [] nodes votes = visit_end (prepared commands) nodes
  prepare-visit commands (x ∷ ids) nodes votes =
      elim (Option-cases (Dict.get string_discrete nodes x)) [
        | inl e ↦ rw (e, prepare) (sym (visit_missing (prepared commands) x ids nodes e))
        | inr (node, e) ↦ elim (Bool-cases (prepared commands x node).1) [
          | inl b ↦
              rw (e, prepare)
                (rw (b, prepare)
                  (prepare-visit commands ids _ _
                    ∙ sym (visit_next (prepared commands) x ids nodes node e b)))
          | inr b ↦
              rw (e, prepare)
                (rw (b, prepare) (sym (visit_failed (prepared commands) x ids nodes node e b)))
        ]
      ]

  pub checkpoint_all-visit :
      (ids : List String) (nodes : List (String × N))
      → checkpoint_all db ids nodes ≡ visit (λ id. checkpoint) ids nodes
  unfolding checkpoint_all
  checkpoint_all-visit [] nodes = visit_end (λ id. checkpoint) nodes
  checkpoint_all-visit (x ∷ ids) nodes = elim (Option-cases (Dict.get string_discrete nodes x)) [
    | inl e ↦ rw (e, checkpoint_all) (sym (visit_missing (λ id. checkpoint) x ids nodes e))
    | inr (node, e) ↦ elim (Bool-cases (checkpoint node).1) [
      | inl b ↦
          rw (e, checkpoint_all)
            (rw (b, checkpoint_all)
              (checkpoint_all-visit ids _
                ∙ sym (visit_next (λ id. checkpoint) x ids nodes node e b)))
      | inr b ↦
          rw (e, checkpoint_all)
            (rw (b, checkpoint_all) (sym (visit_failed (λ id. checkpoint) x ids nodes node e b)))
    ]
  ]

  finish_commit-true :
      (c : DistributedCoordinator N) (state : DistributedTxnState) (q : List (String × N) × Bool)
      → (finish_commit db c state q).1 ≡ some true
      → (q.1 ≡ true) × ((finish_commit db c state q).0.nodes ≡ q.0)
  finish_commit-true c state (nodes, true) h = (refl, refl)
  finish_commit-true c state (nodes, false) h = cc

  finish_commit_not_false :
      (c : DistributedCoordinator N) (state : DistributedTxnState) (q : List (String × N) × Bool)
      → (finish_commit db c state q).1 ≢ some false
  finish_commit_not_false c state (nodes, true) h = cc
  finish_commit_not_false c state (nodes, false) h = cc

  finish-true :
      (c : DistributedCoordinator N) (state : DistributedTxnState)
      (r : List (String × N) × List (String × Bool) × Bool)
      → (finish db c state r).1 ≡ some true
      → (r.2 ≡ true)
        × ((checkpoint_all db state.participants r.0).1 ≡ true)
        × ((finish db c state r).0.nodes ≡ (checkpoint_all db state.participants r.0).0)
  finish-true c state (nodes, votes, false) h = cc
  finish-true c state (nodes, votes, true) h =
      let (ok, after) =
        finish_commit-true c (record state { votes = votes })
          (checkpoint_all db state.participants nodes) h in
      (refl, ok, after)

  finish-false :
      (c : DistributedCoordinator N) (state : DistributedTxnState)
      (r : List (String × N) × List (String × Bool) × Bool)
      → (finish db c state r).1 ≡ some false
      → (r.2 ≡ false) × ((finish db c state r).0.nodes ≡ r.0)
  finish-false c state (nodes, votes, false) h = (refl, refl)
  finish-false c state (nodes, votes, true) h = absurd (
      finish_commit_not_false c (record state { votes = votes })
        (checkpoint_all db state.participants nodes) h)

  -- When the coordinator returns True, each participant is a node whose command succeeded, and its
  -- database is the one after that command, once, and a checkpoint that returned.
  pub commit_executes :
      (txn : String) (commands : List (String × String)) (c : DistributedCoordinator N)
      (id : String)
      → Distinct (keys commands)
      → (execute_2pc db txn commands c).1 ≡ some true
      → IsIn id (keys commands)
      → (node : N) × (Dict.get string_discrete c.nodes id ≡ some node)
        × ((prepared commands id node).1 ≡ true)
        × ((checkpoint (prepared commands id node).0).1 ≡ true)
        × (Dict.get string_discrete (execute_2pc db txn commands c).0.nodes id
            ≡ some (checkpoint (prepared commands id node).0).0)
  unfolding execute_2pc begin_distributed_txn
  commit_executes txn commands c id d h i =
      let (all_ok, checked, after) =
        finish-true (begin_distributed_txn txn (keys commands) c).0
          (begin_distributed_txn txn (keys commands) c).1
          (prepare db commands (keys commands) c.nodes []) h in
      let first = prepare-visit commands (keys commands) c.nodes [] in
      let second =
        checkpoint_all-visit (keys commands) (prepare db commands (keys commands) c.nodes []).0 in
      let (node, g, ok, g') =
        visit-Done (prepared commands) (keys commands) c.nodes id d
          (sym (ap (λ r. r.1) first) ∙ all_ok) i in
      let (node', e, ok', e') =
        visit-Done (λ id. checkpoint) (keys commands) _ id d (sym (ap (λ r. r.1) second) ∙ checked)
          i in
      let between : (prepared commands id node).0 ≡ node' =
        some_eq (sym g' ∙ sym (ap (λ r. Dict.get string_discrete r.0 id) first) ∙ e) in
      (
        node,
        g,
        ok,
        ap (λ n. (checkpoint n).1) between ∙ ok',
        ap (λ ns. Dict.get string_discrete ns id) (after ∙ ap (λ r. r.0) second)
            ∙ e'
            ∙ ap (λ n. some (checkpoint n).0) (sym between),
      )

  get_head :
      (commands : List (String × String)) (k cmd : String)
      → Dict.get string_discrete ((k, cmd) ∷ commands) k ≡ some cmd
  unfolding Dict.get
  get_head commands k cmd = ground arith

  voted_node : (r : N × Option (QueryResult Row)) → (voted db r).0 ≡ r.0
  voted_node (node, none) = refl
  voted_node (node, some r) = refl

  -- An abort undoes nothing: when the coordinator returns False, the database of the first
  -- participant is still the one after its command.
  pub abort_keeps_changes :
      (txn : String) (first : String) (cmd : String) (commands : List (String × String))
      (c : DistributedCoordinator N) (node : N)
      → ¬ (IsIn first (keys commands))
      → Dict.get string_discrete c.nodes first ≡ some node
      → (execute_2pc db txn ((first, cmd) ∷ commands) c).1 ≡ some false
      → Dict.get string_discrete (execute_2pc db txn ((first, cmd) ∷ commands) c).0.nodes first
        ≡ some (execute cmd node).0
  unfolding execute_2pc begin_distributed_txn
  abort_keeps_changes txn first cmd commands c node new g h =
      let all = (first, cmd) ∷ commands in
      let (_, after) =
        finish-false (begin_distributed_txn txn (keys all) c).0
          (begin_distributed_txn txn (keys all) c).1 (prepare db all (keys all) c.nodes []) h in
      let run = prepare-visit all (keys all) c.nodes [] in
      ap (λ ns. Dict.get string_discrete ns first) (after ∙ ap (λ r. r.0) run)
      ∙ visit_first (prepared all) first (keys commands) c.nodes node new g
      ∙ ap some (
          ap (λ m. (attempt db m node).0) (get_head commands first cmd)
          ∙ voted_node (execute cmd node))
