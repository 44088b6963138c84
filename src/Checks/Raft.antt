-- ===== src/Checks/Raft.antt =====
-- pysql/raft.py at small inputs: a cluster of three nodes whose commands are numbers.
use solidity_course_blockcha.Prelude.{
  ℕ, zero, suc, ◌≡◌, ◌↔◌, refl, inr, none, some, List, [], ◌∷◌, true, false, arith, take, get_elem?,
  string_discrete,
}
use solidity_course_blockcha.Prelude.Dict
use solidity_course_blockcha.Raft.Node.{
  follower, candidate, leader, LogEntry, RequestVoteArgs, AppendEntriesArgs, RaftNode, ok,
  index_error, init, adopt_term, apply_rounds, apply_entries,
}
use solidity_course_blockcha.Raft.Follower.{
  handle_request_vote, decide_vote, handle_append_entries, check_previous, accept_entries,
  advance_commit, follow, append_all, append_entry,
}
use solidity_course_blockcha.Raft.Leader.{
  start_election, promote_to_leader, propose, update_leader_commit, commit_found, find_commit,
  can_commit, count_peers, put_all,
}
use solidity_course_blockcha.Raft.Steps.{here, next, vote}
use solidity_course_blockcha.Raft.Emptied.{lost_log}
use solidity_course_blockcha.Raft.Voting.{granted, vote_once, votes_again, granted_iff, VoteDue}
use solidity_course_blockcha.Raft.Matching.{Matches, FromLeader, handle-Matches, success_agrees}
use solidity_course_blockcha.Raft.Commits.{
  IsConsistent, apply_entries_lem, update_leader_commit-Outcome, CommitOutcome,
}
use solidity_course_blockcha.Raft.Consistency.{
  own_steps-IsConsistent, handle_append_entries-Moves, Moves,
}

program : Unit {0}
unfolding init adopt_term apply_rounds apply_entries handle_request_vote decide_vote
    handle_append_entries check_previous accept_entries advance_commit follow append_all
    append_entry start_election promote_to_leader propose update_leader_commit commit_found
    find_commit can_commit count_peers put_all Dict.get Dict.put string_discrete
program = tt

abbrev entry : ℕ → ℕ → ℕ → LogEntry ℕ
entry term index command = record { term = term; index = index; command = some command }

abbrev dummy : LogEntry ℕ
dummy = record { term = 0; index = 0; command = none }

abbrev fresh : RaftNode ℕ
fresh = record {
  node_id = "a";
  peers = "b" ∷ "c" ∷ [];
  applied = [];
  current_term = 0;
  voted_for = none;
  log = dummy ∷ [];
  commit_index = 0;
  last_applied = 0;
  state = follower;
  next_index = [];
  match_index = [];
  last_heartbeat = 0;
  election_timeout = 150;
}

init_runs : init "a" ("b" ∷ "c" ∷ []) 0 150 ≡ fresh
unfolding program
init_runs = refl

abbrev ask_b : RequestVoteArgs
ask_b = record { term = 1; candidate_id = "b"; last_log_index = 0; last_log_term = 0 }

abbrev voter : RaftNode ℕ
voter = record fresh { current_term = 1; voted_for = some "b"; last_heartbeat = 7 }

vote_granted :
    handle_request_vote 7 ask_b fresh ≡ (voter, ok (record { term = 1; vote_granted = true }))
unfolding program
vote_granted = refl

vote_refused : granted (handle_request_vote 8 (record ask_b { candidate_id = "c" }) voter) ≡ false
unfolding program
vote_refused = refl

vote_once_example : ask_b.candidate_id ≡ "b"
unfolding program
vote_once_example =
    vote_once 7 9 ask_b ask_b fresh
      (handle_request_vote 8 (record ask_b { candidate_id = "c" }) voter).0 refl refl
      (next here (vote 8 (record ask_b { candidate_id = "c" }))) refl refl

granted_iff_example :
    (granted (handle_request_vote 7 ask_b fresh) ≡ true) ↔ VoteDue ask_b fresh dummy
granted_iff_example = granted_iff 7 ask_b fresh dummy refl

abbrev running : RaftNode ℕ
running = record fresh { state = candidate; current_term = 1; voted_for = some "a" }

abbrev beat : AppendEntriesArgs ℕ
beat = record {
  term = 1;
  leader_id = "b";
  prev_log_index = 0;
  prev_log_term = 0;
  entries = [];
  leader_commit = 0;
}

votes_again_example :
    ((start_election 4 fresh).0.current_term ≡ 1)
    × ((start_election 4 fresh).0.voted_for ≡ some "a")
    × (granted (
          handle_request_vote 8
            (record ask_b { candidate_id = "c" })
            (handle_append_entries 7 beat (start_election 4 fresh).0).0)
        ≡ true)
unfolding program
votes_again_example =
    votes_again 4 7 8 beat (record ask_b { candidate_id = "c" }) fresh dummy refl refl refl
      (inr (refl, omega arith))

-- So a node can vote for itself and for another in one term.
votes_twice :
    granted (
      handle_request_vote 8
        (record ask_b { candidate_id = "c" })
        (handle_append_entries 7 beat running).0)
    ≡ true
unfolding program
votes_twice = refl

log_emptied : (handle_append_entries 7 (record beat { prev_log_term = 3 }) fresh).0.log ≡ []
unfolding program
log_emptied = refl

lost_log_example :
    ((handle_append_entries 7 (record beat { prev_log_term = 3 }) fresh).0.log ≡ [])
    × ((handle_request_vote 8 ask_b
          (handle_append_entries 7 (record beat { prev_log_term = 3 }) fresh).0).1
        ≡ index_error)
lost_log_example =
    lost_log 7 8 (record beat { prev_log_term = 3 }) ask_b fresh dummy refl refl (λ e. ground arith)
      (omega arith) (omega arith)

abbrev leader_log : List (LogEntry ℕ)
leader_log = dummy ∷ entry 1 1 5 ∷ entry 2 2 7 ∷ []

abbrev behind : RaftNode ℕ
behind = record fresh {
  log = dummy ∷ entry 1 1 5 ∷ entry 1 2 6 ∷ [];
  current_term = 1;
  commit_index = 1;
  last_applied = 1;
  applied = 5 ∷ [];
}

abbrev replicate_args : AppendEntriesArgs ℕ
replicate_args = record {
  term = 2;
  leader_id = "b";
  prev_log_index = 1;
  prev_log_term = 1;
  entries = entry 2 2 7 ∷ [];
  leader_commit = 2;
}

replicated : (handle_append_entries 9 replicate_args behind).0 ≡ record behind {
  log = leader_log;
  current_term = 2;
  commit_index = 2;
  last_applied = 2;
  applied = 5 ∷ 7 ∷ [];
  last_heartbeat = 9;
}
unfolding program
replicated = refl

behind-Matches_at :
    (i : ℕ) (e f : LogEntry ℕ)
    → get_elem? behind.log i ≡ some e
    → get_elem? leader_log i ≡ some f
    → e.term ≡ f.term
    → take (suc i) behind.log ≡ take (suc i) leader_log
behind-Matches_at zero e f p q t = refl
behind-Matches_at (suc zero) e f p q t = refl
behind-Matches_at (suc (suc zero)) e f p q t = ground arith
behind-Matches_at (suc (suc (suc i))) e f p q t = cc

behind-Matches : Matches behind.log leader_log
behind-Matches = record { at = behind-Matches_at }

replicate-FromLeader : FromLeader leader_log replicate_args
replicate-FromLeader = record {
  previous = entry 1 1 5;
  previous_at = refl;
  previous_term = refl;
  entries_from = (refl, refl, tt);
}

behind-IsConsistent : IsConsistent behind
behind-IsConsistent = record { in_log = omega arith; in_order = omega arith; fed = refl }

handle-Matches_example : Matches (handle_append_entries 9 replicate_args behind).0.log leader_log
handle-Matches_example =
    handle-Matches leader_log replicate_args replicate-FromLeader 9 behind behind-Matches

success_agrees_example :
    take 3 (handle_append_entries 9 replicate_args behind).0.log ≡ take 3 leader_log
unfolding program
success_agrees_example =
    success_agrees leader_log replicate_args replicate-FromLeader 9 behind behind-Matches refl

handle_append_entries-Moves_example : Moves 1 (handle_append_entries 9 replicate_args behind)
handle_append_entries-Moves_example =
    handle_append_entries-Moves leader_log replicate_args replicate-FromLeader 9 behind
      behind-IsConsistent refl

own_steps-IsConsistent_example :
    IsConsistent (handle_request_vote 9 ask_b behind).0
    × IsConsistent (start_election 9 behind).0
    × IsConsistent (promote_to_leader behind)
    × IsConsistent (propose 8 behind).0
    × IsConsistent (update_leader_commit behind).0
own_steps-IsConsistent_example = own_steps-IsConsistent 9 ask_b 8 behind behind-IsConsistent

-- A leader that has not applied its two entries; one peer has both.
abbrev leading : RaftNode ℕ
leading = record fresh {
  log = leader_log;
  current_term = 2;
  state = leader;
  match_index = ("b", 2) ∷ ("c", 0) ∷ [];
}

leading-IsConsistent : IsConsistent leading
leading-IsConsistent = record { in_log = omega arith; in_order = omega arith; fed = refl }

committed :
    update_leader_commit leading
    ≡ (record leading { commit_index = 2; last_applied = 2; applied = 5 ∷ 7 ∷ [] }, ok true)
unfolding program
committed = refl

update_leader_commit-Outcome_example : CommitOutcome leading (update_leader_commit leading)
update_leader_commit-Outcome_example = update_leader_commit-Outcome leading leading-IsConsistent

abbrev to_apply : RaftNode ℕ
to_apply = record leading { commit_index = 2 }

to_apply-IsConsistent : IsConsistent to_apply
to_apply-IsConsistent = record { in_log = omega arith; in_order = omega arith; fed = refl }

apply_entries_lem_example :
    apply_entries to_apply ≡ (record to_apply { last_applied = 2; applied = 5 ∷ 7 ∷ [] }, ok tt)
apply_entries_lem_example = apply_entries_lem to_apply to_apply-IsConsistent
