-- ===== src/Checks/Distributed.antt =====
-- pysql/distributed.py over databases that are the lists of the commands they executed.
use solidity_course_blockcha.Prelude.{
  ◌≡◌, ◌≢◌, Bool, refl, inl, inr, none, some, List, [], ◌∷◌, true, false, String, string_discrete,
  ite,
}
use solidity_course_blockcha.Prelude.Dict
use solidity_course_blockcha.Distributed.Coordinator.{
  QueryResult, Database, DistributedCoordinator, TransactionPhase, new_coordinator, get_shard,
  begin_distributed_txn, prepare, checkpoint_all, execute_2pc, gather, execute_scatter_gather,
}
use solidity_course_blockcha.Distributed.Visits.{IsIn, Distinct}
use solidity_course_blockcha.Distributed.Commits.{prepared, commit_executes, abort_keeps_changes}
use solidity_course_blockcha.Distributed.Outcomes.{HasPhase, execute_2pc-HasPhase}

program : Unit {0}
unfolding new_coordinator get_shard begin_distributed_txn prepare checkpoint_all execute_2pc gather
    execute_scatter_gather Dict.get Dict.put string_discrete
program = tt

abbrev log_db : Database (List String) String
log_db = record {
  execute = λ cmd log.
      ite (string_discrete cmd "BAD") (log, none)
        (
          cmd ∷ log,
          some (record { columns = "c" ∷ []; rows = cmd ∷ log; affected_rows = 1; message = "" }),
        );
  checkpoint = λ log. ("CHECKPOINT" ∷ log, true);
}

abbrev three_nodes : DistributedCoordinator (List String)
unfolding new_coordinator
three_nodes = new_coordinator "n" (("a", []) ∷ ("b", []) ∷ ("c", "OLD" ∷ []) ∷ [])

abbrev both_good : List (String × String)
both_good = ("a", "X") ∷ ("b", "Y") ∷ []

abbrev second_bad : List (String × String)
second_bad = ("a", "X") ∷ ("b", "BAD") ∷ []

abbrev is_same : {s t : String} → Dec (s ≡ t) → Bool
is_same (yes e) = true
is_same (no ne) = false

not_same : {s t : String} (d : Dec (s ≡ t)) → is_same d ≡ false → s ≢ t
not_same (yes e) h = cc
not_same (no ne) h = ne

a_not-IsIn : ¬ (IsIn "a" ("b" ∷ []))
unfolding program
a_not-IsIn (inl e) = not_same (string_discrete "b" "a") refl e
a_not-IsIn (inr i) = i

c_not-IsIn : ¬ (IsIn "c" ("a" ∷ "b" ∷ []))
unfolding program
c_not-IsIn (inl e) = not_same (string_discrete "a" "c") refl e
c_not-IsIn (inr (inl e)) = not_same (string_discrete "b" "c") refl e
c_not-IsIn (inr (inr i)) = i

both-Distinct : Distinct ("a" ∷ "b" ∷ [])
both-Distinct = (a_not-IsIn, (λ i. i, tt))

commit_nodes :
    (execute_2pc log_db "t" both_good three_nodes).0.nodes
    ≡ ("a", "CHECKPOINT" ∷ "X" ∷ []) ∷ ("b", "CHECKPOINT" ∷ "Y" ∷ []) ∷ ("c", "OLD" ∷ []) ∷ []
unfolding program
commit_nodes = refl

abort_nodes :
    (execute_2pc log_db "t" second_bad three_nodes).0.nodes
    ≡ ("a", "X" ∷ []) ∷ ("b", []) ∷ ("c", "OLD" ∷ []) ∷ []
unfolding program
abort_nodes = refl

commit_executes_example :
    (node : List String) × (Dict.get string_discrete three_nodes.nodes "b" ≡ some node)
    × ((prepared log_db both_good "b" node).1 ≡ true)
    × ((log_db.checkpoint (prepared log_db both_good "b" node).0).1 ≡ true)
    × (Dict.get string_discrete (execute_2pc log_db "t" both_good three_nodes).0.nodes "b"
        ≡ some (log_db.checkpoint (prepared log_db both_good "b" node).0).0)
unfolding program
commit_executes_example =
    commit_executes log_db "t" both_good three_nodes "b" both-Distinct refl (inr (inl refl))

abort_keeps_changes_example :
    Dict.get string_discrete (execute_2pc log_db "t" second_bad three_nodes).0.nodes "a"
    ≡ some (log_db.execute "X" []).0
unfolding program
abort_keeps_changes_example =
    abort_keeps_changes log_db "t" "a" "X" (("b", "BAD") ∷ []) three_nodes [] a_not-IsIn refl refl

execute_2pc-HasPhase_example :
    HasPhase log_db
      (execute_2pc log_db "t" second_bad three_nodes).0
      "t"
      ("a" ∷ "b" ∷ [])
      TransactionPhase.aborted
unfolding program
execute_2pc-HasPhase_example = execute_2pc-HasPhase log_db "t" second_bad three_nodes

abbrev all_nodes : QueryResult String
all_nodes = record {
  columns = "c" ∷ [];
  rows = "Q" ∷ "Q" ∷ "Q" ∷ "OLD" ∷ [];
  affected_rows = 4;
  message = "";
}

shard_of_seven : get_shard 7 ("a" ∷ "b" ∷ []) ≡ some "b"
unfolding program
shard_of_seven = refl
