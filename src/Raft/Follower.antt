-- ===== src/Raft/Follower.antt =====
-- pysql/raft.py: `handle_request_vote` and `handle_append_entries`.
use solidity_course_blockcha.Prelude.{
  ℕ, ◌-◌, min, String, string_discrete, Bool, true, false, ◌&&◌, ◌||◌, Option, none, some, List, [],
  ◌∷◌, ◌++◌, ite, ltb, leb, ◌==◌, if◌then◌else◌, length, get_elem?, get_last?, take,
}
use solidity_course_blockcha.Raft.Node.{
  is_follower, LogEntry, RequestVoteArgs, RequestVoteReply, AppendEntriesArgs, AppendEntriesReply,
  RaftNode, Result, ok, index_error, replied, adopt_term, apply_entries,
}

abbrev pub can_vote : Option String → String → Bool
can_vote none id = true
can_vote (some voted) id = ite (string_discrete voted id) true false

module _ {C : Type 0} where
  abbrev pub up_to_date : RequestVoteArgs → LogEntry C → Bool
  up_to_date args last =
      if ltb last.term args.last_log_term
      then true
      else (args.last_log_term == last.term) && leb last.index args.last_log_index

  -- `handle_request_vote` from the check of the candidate's log on
  unfoldable pub decide_vote :
      ℕ → RequestVoteArgs → RaftNode C → RaftNode C × Result RequestVoteReply
  decide_vote now args node = elim (get_last? node.log) [
    | none ↦ (node, index_error)
    | some last ↦
        if can_vote node.voted_for args.candidate_id && up_to_date args last
        then (
          record node { voted_for = some args.candidate_id; last_heartbeat = now },
          ok (record { term = node.current_term; vote_granted = true }),
        )
        else (node, ok (record { term = node.current_term; vote_granted = false }))
  ]

  unfoldable pub handle_request_vote :
      ℕ → RequestVoteArgs → RaftNode C → RaftNode C × Result RequestVoteReply
  handle_request_vote now args node =
      if ltb args.term node.current_term
      then (node, ok (record { term = node.current_term; vote_granted = false }))
      else decide_vote now args
          (if ltb node.current_term args.term then adopt_term args.term node else node)

  -- The body of the loop over `args.entries`.
  unfoldable pub append_entry : List (LogEntry C) → LogEntry C → List (LogEntry C)
  append_entry log entry = elim (get_elem? log entry.index) [
    | some old ↦ if old.term == entry.term then log else take entry.index log ++ entry ∷ []
    | none ↦ log ++ entry ∷ []
  ]

  unfoldable pub append_all : List (LogEntry C) → List (LogEntry C) → List (LogEntry C)
  append_all log [] = log
  append_all log (entry ∷ entries) = append_all (append_entry log entry) entries

  unfoldable pub advance_commit : ℕ → RaftNode C → RaftNode C × Result (Unit {0})
  advance_commit leader_commit node =
      if ltb node.commit_index leader_commit
      then apply_entries (record node { commit_index = min leader_commit (length node.log - 1) })
      else (node, ok tt)

  -- `handle_append_entries` once the node's log agrees with the leader's at `prev_log_index`
  unfoldable pub accept_entries :
      AppendEntriesArgs C → RaftNode C → RaftNode C × Result AppendEntriesReply
  accept_entries args node =
      let (node', applied) =
        advance_commit args.leader_commit
          (record node { log = append_all node.log args.entries }) in
      (
        node',
        replied applied (record {
          term = node'.current_term;
          success = true;
          match_index = length node'.log - 1;
        }),
      )

  abbrev pub refuse : RaftNode C → Result AppendEntriesReply
  refuse node = ok (record { term = node.current_term; success = false; match_index = 0 })

  -- `handle_append_entries` from the check of `prev_log_index` on
  unfoldable pub check_previous :
      AppendEntriesArgs C → RaftNode C → RaftNode C × Result AppendEntriesReply
  check_previous args node = elim (get_elem? node.log args.prev_log_index) [
    | none ↦ (node, refuse node)
    | some previous ↦
        if previous.term == args.prev_log_term
        then accept_entries args node
        else (record node { log = take args.prev_log_index node.log }, refuse node)
  ]

  -- The term, the role and the heartbeat after a message of a leader that is not stale.
  unfoldable pub follow : ℕ → ℕ → RaftNode C → RaftNode C
  follow now term node = record settled { last_heartbeat = now }
    where
      settled : RaftNode C
      settled =
          if ltb node.current_term term || (if is_follower node.state then false else true)
          then adopt_term term node
          else node

  unfoldable pub handle_append_entries :
      ℕ → AppendEntriesArgs C → RaftNode C → RaftNode C × Result AppendEntriesReply
  handle_append_entries now args node =
      if ltb args.term node.current_term
      then (node, refuse node)
      else check_previous args (follow now args.term node)
