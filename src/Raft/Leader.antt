-- ===== src/Raft/Leader.antt =====
-- pysql/raft.py: the election, and what a leader does: proposals and the commit index.
use solidity_course_blockcha.Prelude.{
  ℕ, zero, suc, ◌+◌, ◌-◌, ◌/◌, String, string_discrete, Bool, true, false, ◌&&◌, Option, none, some,
  List, [], ◌∷◌, ◌++◌, map, leb, ◌==◌, if◌then◌else◌, length, get_elem?, get_last?,
}
use solidity_course_blockcha.Prelude.Dict
use solidity_course_blockcha.Raft.Node.{
  candidate, leader, is_leader, LogEntry, RequestVoteArgs, RaftNode, Result, ok, index_error,
  replied, apply_entries,
}

-- `d[peer] = value` for each peer
unfoldable pub put_all : List (String × ℕ) → List String → ℕ → List (String × ℕ)
put_all d [] value = d
put_all d (peer ∷ peers) value = put_all (Dict.put string_discrete d peer value) peers value

abbrev pub matched : Option ℕ → ℕ
matched none = 0
matched (some index) = index

-- How many of the peers hold the log up to `N`.
unfoldable pub count_peers : List (String × ℕ) → ℕ → List String → ℕ
count_peers match_index N [] = 0
count_peers match_index N (peer ∷ peers) =
    (if leb N (matched (Dict.get string_discrete match_index peer)) then 1 else 0)
    + count_peers match_index N peers

module _ {C : Type 0} where
  abbrev pub ask : String → ℕ → LogEntry C → RequestVoteArgs
  ask node_id term last = record {
    term = term;
    candidate_id = node_id;
    last_log_index = last.index;
    last_log_term = last.term;
  }

  abbrev pub requests :
      List String → String → ℕ → Option (LogEntry C) → Result (List (String × RequestVoteArgs))
  requests peers node_id term none = index_error
  requests peers node_id term (some last) = ok (map (λ peer. (peer, ask node_id term last)) peers)

  unfoldable pub start_election :
      ℕ → RaftNode C → RaftNode C × Result (List (String × RequestVoteArgs))
  start_election now node = (
    record node {
      state = candidate;
      current_term = node.current_term + 1;
      voted_for = some node.node_id;
      last_heartbeat = now;
    },
    requests node.peers node.node_id (node.current_term + 1) (get_last? node.log),
  )

  unfoldable pub promote_to_leader : RaftNode C → RaftNode C
  promote_to_leader node = record node {
    state = leader;
    next_index = put_all node.next_index node.peers (length node.log);
    match_index = put_all node.match_index node.peers 0;
  }

  unfoldable pub propose : C → RaftNode C → RaftNode C × Option ℕ
  propose command node =
      if is_leader node.state
      then (record node { log = node.log ++ entry ∷ [] }, some (length node.log))
      else (node, none)
    where
      entry : LogEntry C
      entry = record { term = node.current_term; index = length node.log; command = some command }

  abbrev pub majority : RaftNode C → ℕ
  majority node = (length node.peers + 1) / 2 + 1

  unfoldable pub can_commit : RaftNode C → ℕ → Bool
  can_commit node N = elim (get_elem? node.log N) [
    | none ↦ false
    | some entry ↦
        (entry.term == node.current_term)
        && leb (majority node) (1 + count_peers node.match_index N node.peers)
  ]

  -- `for N in range(len(log) - 1, commit_index, -1)`: the first N that can be committed, of
  -- `rounds` numbers from `commit_index + rounds` down.
  unfoldable pub find_commit : RaftNode C → ℕ → Option ℕ
  find_commit node zero = none
  find_commit node (suc rounds) =
      if can_commit node (node.commit_index + suc rounds)
      then some (node.commit_index + suc rounds)
      else find_commit node rounds

  unfoldable pub commit_found : RaftNode C → Option ℕ → RaftNode C × Result Bool
  commit_found node none = (node, ok false)
  commit_found node (some N) =
      let (node', applied) = apply_entries (record node { commit_index = N }) in
      (node', replied applied true)

  unfoldable pub update_leader_commit : RaftNode C → RaftNode C × Result Bool
  update_leader_commit node =
      if is_leader node.state
      then commit_found node (find_commit node (length node.log - 1 - node.commit_index))
      else (node, ok false)
