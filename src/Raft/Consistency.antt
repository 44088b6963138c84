-- ===== src/Raft/Consistency.antt =====
-- Every step keeps the state machine of a node in accord with its log, and the messages of a leader
-- do so as long as the leader's log has what the node has committed.
use solidity_course_blockcha.Prelude.{
  ℕ, suc, ◌-◌, ◌≤◌, ◌<◌, ◌≡◌, ◌≢◌, refl, ap, sym, ◌∙◌, inl, inr, none, get_elem?, List, arith, min,
  length, String, Option-cases, ltb, Bool-cases, Bool, true, false, ◌==◌, take, take-take,
  get_elem?-lt, length-append, take-append_left, if◌then◌else◌, ==-false→ne, ltb→lt, le_refl, ◌||◌,
}
use solidity_course_blockcha.Raft.Node.{
  LogEntry, RaftNode, RequestVoteArgs, AppendEntriesArgs, Result, ok, index_error, adopt_term,
  follower, is_leader, is_follower, init,
}
use solidity_course_blockcha.Raft.Follower.{
  handle_request_vote, decide_vote, handle_append_entries, check_previous, accept_entries,
  advance_commit, follow, append_all,
}
use solidity_course_blockcha.Raft.Leader.{
  start_election, promote_to_leader, propose, update_leader_commit,
}
use solidity_course_blockcha.Raft.Matching.{FromLeader, cut}
use solidity_course_blockcha.Raft.Prefix.{append_all-keeps, LogAfter-keeps}
use solidity_course_blockcha.Raft.Commits.{
  Book, IsConsistent, commands, apply_entries_lem, recommitted, fed_up_to-Book, CommitOutcome,
  not_leader, none_new, advanced, update_leader_commit-Outcome,
}

module _ {C : Type 0} where
  pub IsConsistent-init :
      (id : String) (peers : List String) (now timeout : ℕ)
      → IsConsistent (init {C = C} id peers now timeout)
  unfolding init
  IsConsistent-init id peers now timeout = record {
    in_log = omega arith;
    in_order = omega arith;
    fed = refl;
  }

  Book-prefix :
      (log after : List (LogEntry C)) (c l : ℕ) (a : List C)
      → Book log c l a
      → (take (suc c) after ≡ take (suc c) log) × (suc c ≤ length after)
      → Book after c l a
  Book-prefix log after c l a b (p, h) = record {
    in_log = h;
    in_order = b.in_order;
    fed =
        b.fed
        ∙ ap commands (
            sym (take-take (suc l) (suc c) log (omega (arith, b.in_order)))
            ∙ ap (take (suc l)) (sym p)
            ∙ take-take (suc l) (suc c) after (omega (arith, b.in_order)));
  }

  handle_request_vote-IsConsistent :
      (now : ℕ) (args : RequestVoteArgs) (n : RaftNode C)
      → IsConsistent n
      → IsConsistent (handle_request_vote now args n).0
  unfolding handle_request_vote decide_vote adopt_term
  handle_request_vote-IsConsistent now args n b = ground arith

  start_election-IsConsistent :
      (now : ℕ) (n : RaftNode C) → IsConsistent n → IsConsistent (start_election now n).0
  unfolding start_election
  start_election-IsConsistent now n b = b

  promote_to_leader-IsConsistent :
      (n : RaftNode C) → IsConsistent n → IsConsistent (promote_to_leader n)
  unfolding promote_to_leader
  promote_to_leader-IsConsistent n b = b

  propose-IsConsistent :
      (command : C) (n : RaftNode C) → IsConsistent n → IsConsistent (propose command n).0
  unfolding propose
  propose-IsConsistent command n b = elim (Bool-cases (is_leader n.state)) [
    | inl l ↦ rw l (
        Book-prefix n.log _ n.commit_index n.last_applied n.applied b (
          take-append_left (suc n.commit_index) n.log _ b.in_log,
          omega (arith, b.in_log, length-append n.log),
        ))
    | inr l ↦ rw l b
  ]

  update_leader_commit-IsConsistent :
      (n : RaftNode C) {r : RaftNode C × Result Bool}
      → IsConsistent n
      → CommitOutcome n r
      → IsConsistent r.0
  update_leader_commit-IsConsistent n b (not_leader l) = b
  update_leader_commit-IsConsistent n b (none_new l f) = b
  update_leader_commit-IsConsistent n b (advanced N l p c f) =
      fed_up_to-Book n N (get_elem?-lt n.log N c.entry c.entry_at)

  -- A vote request, an election, a promotion, a proposal and a look at the commit index each keep
  -- a node consistent.
  pub own_steps-IsConsistent :
      (now : ℕ) (args : RequestVoteArgs) (command : C) (n : RaftNode C)
      → IsConsistent n
      → IsConsistent (handle_request_vote now args n).0
        × IsConsistent (start_election now n).0
        × IsConsistent (promote_to_leader n)
        × IsConsistent (propose command n).0
        × IsConsistent (update_leader_commit n).0
  own_steps-IsConsistent now args command n b = (
    handle_request_vote-IsConsistent now args n b,
    start_election-IsConsistent now n b,
    promote_to_leader-IsConsistent n b,
    propose-IsConsistent command n b,
    update_leader_commit-IsConsistent n b (update_leader_commit-Outcome n b),
  )

  -- A consistent node stays so, its commit index does not fall, and nothing is raised.
  pub record Moves {A : Type 0} (commit_index : ℕ) (r : RaftNode C × Result A) : Type 0 where
    pub consistent : IsConsistent r.0
    pub no_lower : commit_index ≤ r.0.commit_index
    pub returns : r.1 ≢ index_error

  advance_commit-Moves :
      (k : ℕ) (n : RaftNode C)
      → IsConsistent n
      → IsConsistent (advance_commit k n).0
        × (n.commit_index ≤ (advance_commit k n).0.commit_index)
        × ((advance_commit k n).1 ≡ ok tt)
  unfolding advance_commit
  advance_commit-Moves k n b = elim (Bool-cases (ltb n.commit_index k)) [
    | inl l ↦
        let low : n.commit_index ≤ min k (length n.log - 1) =
          omega (arith, ltb→lt _ _ l, b.in_log) in
        let room : min k (length n.log - 1) < length n.log = omega (arith, b.in_log) in
        rw l (
          rw
            (apply_entries_lem (record n { commit_index = min k (length n.log - 1) })
              (recommitted n _ b low room))
            (fed_up_to-Book n _ room, low, refl))
    | inr l ↦ rw l (b, le_refl n.commit_index, refl)
  ]

  accept_entries-Moves :
      (args : AppendEntriesArgs C) (n : RaftNode C)
      → IsConsistent (record n { log = append_all n.log args.entries })
      → Moves n.commit_index (accept_entries args n)
  unfolding accept_entries
  accept_entries-Moves args n b =
      let (c, low, done) = advance_commit-Moves args.leader_commit _ b in
      record { consistent = c; no_lower = low; returns = rw done (λ e. cc) }

  module _ (leader_log : List (LogEntry C)) (args : AppendEntriesArgs C)
      (sent : FromLeader leader_log args) where
    check_previous-Moves :
        (n : RaftNode C)
        → IsConsistent n
        → take (suc n.commit_index) n.log ≡ take (suc n.commit_index) leader_log
        → Moves n.commit_index (check_previous args n)
    unfolding check_previous
    check_previous-Moves n b p = elim (Option-cases (get_elem? n.log args.prev_log_index)) [
      | inl e ↦
          rw (e, check_previous)
            (record { consistent = b; no_lower = le_refl n.commit_index; returns = λ e. cc })
      | inr (x, e) ↦ elim (Bool-cases (x.term == args.prev_log_term)) [
        | inl t ↦
            rw (e, check_previous)
              (rw t (
                accept_entries-Moves args n (
                  Book-prefix n.log _ n.commit_index n.last_applied n.applied b (
                    append_all-keeps args.entries n.log leader_log (suc args.prev_log_index)
                      (suc n.commit_index) sent.entries_from b.in_log p))))
        | inr t ↦
            rw (e, check_previous)
              (rw t (record {
                consistent = Book-prefix n.log _ n.commit_index n.last_applied n.applied b (
                    LogAfter-keeps leader_log args (suc n.commit_index)
                      (cut x e (==-false→ne _ _ t)) sent b.in_log p);
                no_lower = le_refl n.commit_index;
                returns = λ e. cc;
              }))
      ]
    ]

    abbrev adopted : ℕ → RaftNode C → RaftNode C
    adopted now n = record n {
      current_term = args.term;
      voted_for = none;
      state = follower;
      last_heartbeat = now;
    }

    -- A message of a leader whose log has all that the node has committed is handled without an
    -- exception, keeps the node consistent, and does not lower its commit index.
    pub handle_append_entries-Moves :
        (now : ℕ) (n : RaftNode C)
        → IsConsistent n
        → take (suc n.commit_index) n.log ≡ take (suc n.commit_index) leader_log
        → Moves n.commit_index (handle_append_entries now args n)
    unfolding handle_append_entries follow adopt_term
    handle_append_entries-Moves now n b p = elim (Bool-cases (ltb args.term n.current_term)) [
      | inl t ↦
          rw t (record { consistent = b; no_lower = le_refl n.commit_index; returns = λ e. cc })
      | inr t ↦
          elim (Bool-cases
            (ltb n.current_term args.term || (if is_follower n.state then false else true))) [
              | inl u ↦ rw t (rw u (check_previous-Moves (adopted now n) b p))
              | inr u ↦ rw t (rw u (check_previous-Moves (record n { last_heartbeat = now }) b p))
            ]
    ]
