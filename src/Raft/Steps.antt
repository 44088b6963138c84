-- ===== src/Raft/Steps.antt =====
-- What may happen to a Raft node, as a relation: a message is handled, an election is started, a
-- candidate is promoted, a command is proposed, the leader looks at its commit index. With it,
-- what the application of entries and an accepted message leave alone.
use solidity_course_blockcha.Prelude.{
  ℕ, zero, suc, ◌-◌, ◌≡◌, refl, ap, sym, ◌∙◌, inl, inr, get_elem?, Option-cases, ltb, Bool-cases,
}
use solidity_course_blockcha.Raft.Node.{
  candidate, RaftNode, RequestVoteArgs, AppendEntriesArgs, apply_rounds, apply_entries, feed,
}
use solidity_course_blockcha.Raft.Follower.{
  handle_request_vote, handle_append_entries, advance_commit,
}
use solidity_course_blockcha.Raft.Leader
use solidity_course_blockcha.Raft.Leader.{
  start_election, promote_to_leader, update_leader_commit, commit_found, find_commit,
}

module _ {C : Type 0} where
  pub data Step (n : RaftNode C) : RaftNode C → Type 0 where
    vote : (now : ℕ) (args : RequestVoteArgs) → Step n (handle_request_vote now args n).0
    append : (now : ℕ) (args : AppendEntriesArgs C) → Step n (handle_append_entries now args n).0
    elect : (now : ℕ) → Step n (start_election now n).0
    promote : n.state ≡ candidate → Step n (promote_to_leader n)
    propose : (command : C) → Step n (Leader.propose command n).0
    commit : Step n (update_leader_commit n).0

  pub data Reach (n : RaftNode C) : RaftNode C → Type 0 where
    here : Reach n n
    next : {m k : RaftNode C} → Reach n m → Step m k → Reach n k

  -- The application of entries changes nothing but its own two fields.
  abbrev pub Fed : RaftNode C → RaftNode C → Type 0
  Fed n m = m ≡ record n { last_applied = m.last_applied; applied = m.applied }

  apply_rounds-Fed : (k : ℕ) (n : RaftNode C) → Fed n (apply_rounds k n).0
  unfolding apply_rounds
  apply_rounds-Fed zero n = refl
  apply_rounds-Fed (suc k) n = elim (Option-cases (get_elem? n.log (suc n.last_applied))) [
    | inl e ↦ rw (e, apply_rounds)
    | inr (x, e) ↦
        rw (e, apply_rounds)
          (apply_rounds-Fed k
            (record n { last_applied = suc n.last_applied; applied = feed n.applied x.command }))
  ]

  pub apply_entries-Fed : (n : RaftNode C) → Fed n (apply_entries n).0
  unfolding apply_entries
  apply_entries-Fed n = apply_rounds-Fed (n.commit_index - n.last_applied) n

  -- An advance of the commit index may set that index as well.
  abbrev pub Advanced : RaftNode C → RaftNode C → Type 0
  Advanced n m = m ≡ record n {
    commit_index = m.commit_index;
    last_applied = m.last_applied;
    applied = m.applied;
  }

  Fed-Advanced : (N : ℕ) (n m : RaftNode C) → Fed (record n { commit_index = N }) m → Advanced n m
  Fed-Advanced N n m e =
      e
      ∙ ap
          (λ (k : ℕ). record n {
            commit_index = k;
            last_applied = m.last_applied;
            applied = m.applied;
          })
          (sym (ap (λ (x : RaftNode C). x.commit_index) e))

  pub committed-Advanced :
      (N : ℕ) (n : RaftNode C) → Advanced n (apply_entries (record n { commit_index = N })).0
  committed-Advanced N n = Fed-Advanced N n _ (apply_entries-Fed (record n { commit_index = N }))

  pub advance_commit-Advanced : (k : ℕ) (n : RaftNode C) → Advanced n (advance_commit k n).0
  unfolding advance_commit
  advance_commit-Advanced k n = elim (Bool-cases (ltb n.commit_index k)) [
    | inl e ↦ rw (e, advance_commit) (committed-Advanced _ n)
    | inr e ↦ rw (e, advance_commit)
  ]
