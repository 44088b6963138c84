-- ===== src/Raft/Node.antt =====
-- pysql/raft.py: the messages, the state of a node and `_apply_entries`. Each method is a function
-- from the node to the node after it and what it returns. Commands are of any type `C`. A call of
-- `time.time()` is an argument `now`, a reading of the clock in ticks. The state machine's
-- callback is given to the node from outside: `applied` lists the commands handed to it, in order.
-- Terms and indices are natural numbers.
use solidity_course_blockcha.Prelude.{
  ℕ, zero, suc, ◌-◌, String, Bool, true, false, Option, none, some, List, [], ◌∷◌, ◌++◌, get_elem?,
}

pub data NodeState : Type 0 where
  follower candidate leader : NodeState

pub record LogEntry (C : Type 0) : Type 0 where
  pub term : ℕ
  pub index : ℕ
  pub command : Option C

pub record RequestVoteArgs : Type 0 where
  pub term : ℕ
  pub candidate_id : String
  pub last_log_index : ℕ
  pub last_log_term : ℕ

pub record RequestVoteReply : Type 0 where
  pub term : ℕ
  pub vote_granted : Bool

pub record AppendEntriesArgs (C : Type 0) : Type 0 where
  pub term : ℕ
  pub leader_id : String
  pub prev_log_index : ℕ
  pub prev_log_term : ℕ
  pub entries : List (LogEntry C)
  pub leader_commit : ℕ

pub record AppendEntriesReply : Type 0 where
  pub term : ℕ
  pub success : Bool
  pub match_index : ℕ

pub record RaftNode (C : Type 0) : Type 0 where
  pub node_id : String
  pub peers : List String
  pub applied : List C
  pub current_term : ℕ
  pub voted_for : Option String
  pub log : List (LogEntry C)
  pub commit_index : ℕ
  pub last_applied : ℕ
  pub state : NodeState
  pub next_index : List (String × ℕ)
  pub match_index : List (String × ℕ)
  pub last_heartbeat : ℕ
  pub election_timeout : ℕ

-- What a method returns, or the IndexError that a read outside the log raises.
pub data Result (A : Type 0) : Type 0 where
  ok : A → Result A
  index_error : Result A

abbrev pub is_follower : NodeState → Bool
is_follower follower = true
is_follower candidate = false
is_follower leader = false

abbrev pub is_leader : NodeState → Bool
is_leader follower = false
is_leader candidate = false
is_leader leader = true

abbrev pub replied : {A B : Type 0} → Result A → B → Result B
replied (ok _) reply = ok reply
replied index_error reply = index_error

module _ {C : Type 0} where
  -- `timeout` is the value that `random.uniform` gives.
  unfoldable pub init : String → List String → ℕ → ℕ → RaftNode C
  init node_id peers now timeout = record {
    node_id = node_id;
    peers = peers;
    applied = [];
    current_term = 0;
    voted_for = none;
    log = record { term = 0; index = 0; command = none } ∷ [];
    commit_index = 0;
    last_applied = 0;
    state = follower;
    next_index = [];
    match_index = [];
    last_heartbeat = now;
    election_timeout = timeout;
  }

  unfoldable pub adopt_term : ℕ → RaftNode C → RaftNode C
  adopt_term term node = record node { current_term = term; state = follower; voted_for = none }

  -- `entry = self.log[self.last_applied]` and the call of the state machine
  abbrev pub feed : List C → Option C → List C
  feed applied none = applied
  feed applied (some command) = applied ++ command ∷ []

  -- The rounds of `_apply_entries`: as many as `last_applied` is below `commit_index`.
  unfoldable pub apply_rounds : ℕ → RaftNode C → RaftNode C × Result (Unit {0})
  apply_rounds zero node = (node, ok tt)
  apply_rounds (suc rounds) node = elim (get_elem? node.log (suc node.last_applied)) [
    | none ↦ (record node { last_applied = suc node.last_applied }, index_error)
    | some entry ↦ apply_rounds rounds (record node {
      last_applied = suc node.last_applied;
      applied = feed node.applied entry.command;
    })
  ]

  unfoldable pub apply_entries : RaftNode C → RaftNode C × Result (Unit {0})
  apply_entries node = apply_rounds (node.commit_index - node.last_applied) node
