-- ===== src/Raft/Voting.antt =====
-- Elections: when a vote is granted, that a vote stays, and that terms do not fall.
use solidity_course_blockcha.Prelude.{
  ℕ, ◌+◌, ◌-◌, ◌≤◌, ◌<◌, ◌≡◌, ◌⊎◌, ◌↔◌, if◌then◌else◌, refl, ap, sym, inl, inr, none, some,
  get_elem?, arith, length, String, Option-cases, ltb, Bool-cases, Bool, true, false, Option,
  get_last?, string_discrete, ◌==◌,
}
use solidity_course_blockcha.Raft.Node.{
  follower, LogEntry, RaftNode, RequestVoteArgs, AppendEntriesArgs, adopt_term, is_follower,
  is_leader, Result, index_error, RequestVoteReply, NodeState, ok,
}
use solidity_course_blockcha.Raft.Follower.{
  handle_request_vote, handle_append_entries, decide_vote, check_previous, accept_entries, follow,
}
use solidity_course_blockcha.Raft.Leader.{
  start_election, promote_to_leader, propose, update_leader_commit, commit_found, find_commit,
}
use solidity_course_blockcha.Raft.Steps.{
  Step, vote, append, elect, promote, propose as proposed, commit, Reach, here, next,
  advance_commit-Advanced, committed-Advanced,
}

module _ {C : Type 0} where
  -- The part of a node that elections are about.
  abbrev role : RaftNode C → ℕ × Option String × NodeState
  role n = (n.current_term, n.voted_for, n.state)

  accept_entries-role :
      (args : AppendEntriesArgs C) (n : RaftNode C) → role (accept_entries args n).0 ≡ role n
  unfolding accept_entries
  accept_entries-role args n = ap role (advance_commit-Advanced args.leader_commit _)

  check_previous-role :
      (args : AppendEntriesArgs C) (n : RaftNode C) → role (check_previous args n).0 ≡ role n
  unfolding check_previous
  check_previous-role args n = elim (Option-cases (get_elem? n.log args.prev_log_index)) [
    | inl e ↦ rw (e, check_previous)
    | inr (x, e) ↦ elim (Bool-cases (x.term == args.prev_log_term)) [
      | inl b ↦ rw (e, check_previous) (rw b (accept_entries-role args n))
      | inr b ↦ rw (e, check_previous) (rw b)
    ]
  ]

  handle_append_entries-role :
      (now : ℕ) (args : AppendEntriesArgs C) (n : RaftNode C)
      → role (handle_append_entries now args n).0 ≡ (
          if ltb args.term n.current_term
          then role n
          else if ltb n.current_term args.term
          then (args.term, none, follower)
          else if is_follower n.state
          then role n
          else (args.term, none, follower))
  unfolding handle_append_entries follow adopt_term
  handle_append_entries-role now args n =
      ground (arith, check_previous-role args (follow now args.term n))

  update_leader_commit-role : (n : RaftNode C) → role (update_leader_commit n).0 ≡ role n
  unfolding update_leader_commit commit_found
  update_leader_commit-role n = elim (Bool-cases (is_leader n.state)) [
    | inl b ↦
        rw (b, update_leader_commit) (found (find_commit n (length n.log - 1 - n.commit_index)))
    | inr b ↦ rw (b, update_leader_commit)
  ]
    where
      found : (o : Option ℕ) → role (commit_found n o).0 ≡ role n
      found none = refl
      found (some N) = ap role (committed-Advanced N n)

  -- No step lowers a node's term.
  pub Step-term-le : {n m : RaftNode C} → Step n m → n.current_term ≤ m.current_term
  unfolding handle_request_vote decide_vote adopt_term start_election promote_to_leader propose
  Step-term-le {n} (vote now args) = ground arith
  Step-term-le {n} (append now args) = ground (
    arith,
    ap (λ (r : ℕ × Option String × NodeState). r.0) (handle_append_entries-role now args n),
  )
  Step-term-le (elect now) = ground arith
  Step-term-le (promote h) = ground arith
  Step-term-le (proposed c) = ground arith
  Step-term-le {n} commit =
      ground (arith, ap (λ (r : ℕ × Option String × NodeState). r.0) (update_leader_commit-role n))

  -- A follower has given its vote of a term to a candidate, or is past that term.
  abbrev pub HasVoted : ℕ → String → RaftNode C → Type 0
  HasVoted term id n =
      (term < n.current_term)
      ⊎ ((n.current_term ≡ term) × (n.voted_for ≡ some id) × (n.state ≡ follower))

  HasVoted-vote :
      (term : ℕ) (id : String) (n : RaftNode C) (now : ℕ) (args : RequestVoteArgs)
      → HasVoted term id n
      → HasVoted term id (handle_request_vote now args n).0
  unfolding handle_request_vote decide_vote adopt_term
  HasVoted-vote term id n now args h = ground (arith, string_discrete id args.candidate_id)

  HasVoted-append :
      (term : ℕ) (id : String) (n : RaftNode C) (now : ℕ) (args : AppendEntriesArgs C)
      → HasVoted term id n
      → HasVoted term id (handle_append_entries now args n).0
  HasVoted-append term id n now args h = ground (arith, handle_append_entries-role now args n)

  HasVoted-Step :
      (term : ℕ) (id : String) {n m : RaftNode C}
      → Step n m
      → HasVoted term id n
      → HasVoted term id m
  unfolding start_election promote_to_leader propose
  HasVoted-Step term id {n} (vote now args) h = HasVoted-vote term id n now args h
  HasVoted-Step term id {n} (append now args) h = HasVoted-append term id n now args h
  HasVoted-Step term id (elect now) h = ground arith
  HasVoted-Step term id (promote c) h = ground arith
  HasVoted-Step term id (proposed c) h = ground arith
  HasVoted-Step term id {n} commit h = ground (arith, update_leader_commit-role n)

  HasVoted-Reach :
      (term : ℕ) (id : String) {n m : RaftNode C}
      → Reach n m
      → HasVoted term id n
      → HasVoted term id m
  HasVoted-Reach term id here h = h
  HasVoted-Reach term id (next r st) h = HasVoted-Step term id st (HasVoted-Reach term id r h)

  abbrev pub granted : RaftNode C × Result RequestVoteReply → Bool
  granted (n, ok reply) = reply.vote_granted
  granted (n, index_error) = false

  granted-HasVoted :
      (now : ℕ) (args : RequestVoteArgs) (n : RaftNode C)
      → n.state ≡ follower
      → granted (handle_request_vote now args n) ≡ true
      → HasVoted args.term args.candidate_id (handle_request_vote now args n).0
  unfolding handle_request_vote decide_vote adopt_term
  granted-HasVoted now args n f g = ground arith

  granted_again :
      (term : ℕ) (id : String) (now : ℕ) (args : RequestVoteArgs) (n : RaftNode C)
      → HasVoted term id n
      → args.term ≡ term
      → granted (handle_request_vote now args n) ≡ true
      → args.candidate_id ≡ id
  unfolding handle_request_vote decide_vote adopt_term
  granted_again term id now args n h e g = ground arith

  -- A follower votes at most once in a term: when it has granted a vote, and whatever messages,
  -- elections, promotions of a candidate, proposals and commits follow, a vote that it grants
  -- later in the same term is for the same candidate.
  pub vote_once :
      (now later : ℕ) (a b : RequestVoteArgs) (n m : RaftNode C)
      → n.state ≡ follower
      → granted (handle_request_vote now a n) ≡ true
      → Reach (handle_request_vote now a n).0 m
      → b.term ≡ a.term
      → granted (handle_request_vote later b m) ≡ true
      → b.candidate_id ≡ a.candidate_id
  vote_once now later a b n m f g r e g' =
      granted_again a.term a.candidate_id later b m
        (HasVoted-Reach a.term a.candidate_id r (granted-HasVoted now a n f g)) e g'

  -- The condition under which a vote is due, over the term that the node has on reading the
  -- request: the request is not stale, the node has not voted for another in the request's term,
  -- and the candidate's log is at least as new, first by its last term and then by its length.
  abbrev pub VoteDue : RequestVoteArgs → RaftNode C → LogEntry C → Type 0
  VoteDue args n last =
      (n.current_term ≤ args.term)
      × ((n.current_term < args.term)
          ⊎ ((n.voted_for ≡ none) ⊎ (n.voted_for ≡ some args.candidate_id)))
      × ((last.term < args.last_log_term)
          ⊎ ((args.last_log_term ≡ last.term) × (last.index ≤ args.last_log_index)))

  granted-VoteDue :
      (now : ℕ) (args : RequestVoteArgs) (n : RaftNode C) (last : LogEntry C)
      → get_last? n.log ≡ some last
      → granted (handle_request_vote now args n) ≡ true
      → VoteDue args n last
  unfolding handle_request_vote decide_vote adopt_term
  granted-VoteDue now args n last l g = ground arith

  VoteDue-granted :
      (now : ℕ) (args : RequestVoteArgs) (n : RaftNode C) (last : LogEntry C)
      → get_last? n.log ≡ some last
      → VoteDue args n last
      → granted (handle_request_vote now args n) ≡ true
  unfolding handle_request_vote decide_vote adopt_term
  VoteDue-granted now args n last l g = ground arith

  -- With a log that is not empty, a vote is granted exactly when it is due.
  pub granted_iff :
      (now : ℕ) (args : RequestVoteArgs) (n : RaftNode C) (last : LogEntry C)
      → get_last? n.log ≡ some last
      → (granted (handle_request_vote now args n) ≡ true) ↔ VoteDue args n last
  granted_iff now args n last l =
      (granted-VoteDue now args n last l, VoteDue-granted now args n last l)

  -- A node that stands for election votes for itself; when it then hears from a leader of its new
  -- term, any other candidate of that term whose log is up to date gets its vote as well: two votes
  -- in one term.
  pub votes_again :
      (start now later : ℕ) (args : AppendEntriesArgs C) (ask : RequestVoteArgs) (n : RaftNode C)
      (last : LogEntry C)
      → args.term ≡ n.current_term + 1
      → ask.term ≡ n.current_term + 1
      → get_last? (handle_append_entries now args (start_election start n).0).0.log ≡ some last
      → (last.term < ask.last_log_term)
        ⊎ ((ask.last_log_term ≡ last.term) × (last.index ≤ ask.last_log_index))
      → ((start_election start n).0.current_term ≡ ask.term)
        × ((start_election start n).0.voted_for ≡ some n.node_id)
        × (granted (
              handle_request_vote later ask
                (handle_append_entries now args (start_election start n).0).0)
            ≡ true)
  unfolding start_election
  votes_again start now later args ask n last a b l log =
      let r = handle_append_entries-role now args (start_election start n).0 in
      (
        sym b,
        refl,
        (granted_iff later ask (handle_append_entries now args (start_election start n).0).0 last
              l).1
            (ground (arith, r), ground (arith, r), log),
      )
