-- ===== src/Raft/Emptied.antt =====
-- A message that disagrees with the first entry of the log removes it, and the log with it.
use solidity_course_blockcha.Prelude.{
  ℕ, ◌≤◌, ◌≡◌, ◌≢◌, refl, ap, subst, sym, ◌∙◌, some, [], arith, get_elem?, take, ltb, Bool-cases,
  inl, inr, ◌==◌, false,
}
use solidity_course_blockcha.Raft.Node.{
  LogEntry, RaftNode, RequestVoteArgs, AppendEntriesArgs, adopt_term, index_error,
}
use solidity_course_blockcha.Raft.Follower.{
  handle_request_vote, decide_vote, handle_append_entries, check_previous, follow,
}
use solidity_course_blockcha.Raft.Matching.{log-follow}

module _ {C : Type 0} where
  check_emptied :
      (args : AppendEntriesArgs C) (n : RaftNode C) (first : LogEntry C)
      → get_elem? n.log args.prev_log_index ≡ some first
      → args.prev_log_index ≡ 0
      → first.term ≢ args.prev_log_term
      → ((check_previous args n).0.log ≡ [])
        × ((check_previous args n).0.current_term ≡ n.current_term)
  unfolding check_previous
  check_emptied args n first f p t = elim (Bool-cases (first.term == args.prev_log_term)) [
    | inl b ↦ absurd (t (ground arith))
    | inr b ↦ rw (f, check_previous) (rw b (ap (λ (k : ℕ). take k n.log) p, refl))
  ]

  term-follow :
      (now term : ℕ) (n : RaftNode C)
      → n.current_term ≤ term
      → (follow now term n).current_term ≡ term
  unfolding follow adopt_term
  term-follow now term n h = ground arith

  emptied :
      (now : ℕ) (args : AppendEntriesArgs C) (n : RaftNode C) (first : LogEntry C)
      → get_elem? n.log args.prev_log_index ≡ some first
      → args.prev_log_index ≡ 0
      → first.term ≢ args.prev_log_term
      → n.current_term ≤ args.term
      → ((handle_append_entries now args n).0.log ≡ [])
        × ((handle_append_entries now args n).0.current_term ≡ args.term)
  unfolding handle_append_entries
  emptied now args n first f p t h =
      let (l, c) = check_emptied args (follow now args.term n) first (rw log-follow f) p t in
      let fresh : ltb args.term n.current_term ≡ false = ground arith in
      rw fresh (l, c ∙ term-follow now args.term n h)

  no_last_entry :
      (now : ℕ) (request : RequestVoteArgs) (n : RaftNode C)
      → n.log ≡ []
      → n.current_term ≤ request.term
      → (handle_request_vote now request n).1 ≡ index_error
  unfolding handle_request_vote decide_vote adopt_term
  no_last_entry now request n e h = ground arith

  -- When a message that is not stale names place 0 as the previous one, and a term that the entry
  -- there does not have, the node's log is empty afterwards, and a vote request of the same or a
  -- later term raises an IndexError.
  pub lost_log :
      (now later : ℕ) (args : AppendEntriesArgs C) (request : RequestVoteArgs) (n : RaftNode C)
      (first : LogEntry C)
      → get_elem? n.log 0 ≡ some first
      → args.prev_log_index ≡ 0
      → first.term ≢ args.prev_log_term
      → n.current_term ≤ args.term
      → args.term ≤ request.term
      → ((handle_append_entries now args n).0.log ≡ [])
        × ((handle_request_vote later request (handle_append_entries now args n).0).1 ≡ index_error)
  lost_log now later args request n first f p t h r =
      let (l, c) =
        emptied now args n first (subst (λ k. get_elem? n.log k ≡ some first) (sym p) f) p t h in
      (l, no_last_entry later request _ l (omega (arith, c)))
