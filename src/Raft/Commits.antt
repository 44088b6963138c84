-- ===== src/Raft/Commits.antt =====
-- Committed entries and the state machine: what has been handed to it is what the log holds up to
-- `last_applied`.
use solidity_course_blockcha.Prelude.{
  ℕ, zero, suc, ◌+◌, ◌-◌, ◌≤◌, ◌<◌, ◌*◌, ◌≡◌, ◌≢◌, refl, ap, ap₂, dec_lt, sym, ◌∙◌, inl, inr, none,
  some, get_elem?, List, [], ◌∷◌, ◌++◌, arith, length, Option-cases, Bool-cases, Bool, true, false,
  Option, take, take-suc, get_elem?-some, append_assoc, append-nil,
}
use solidity_course_blockcha.Raft.Node.{
  LogEntry, RaftNode, Result, ok, apply_rounds, apply_entries, feed, leader, is_leader,
}
use solidity_course_blockcha.Raft.Leader.{
  update_leader_commit, commit_found, find_commit, can_commit, count_peers,
}

module _ {C : Type 0} where
  -- The commands of some entries; the first entry of a log has none.
  abbrev pub commands : List (LogEntry C) → List C
  commands [] = []
  commands (e ∷ es) = feed [] e.command ++ commands es

  commands-append : (xs ys : List (LogEntry C)) → commands (xs ++ ys) ≡ commands xs ++ commands ys
  commands-append [] ys = refl
  commands-append (x ∷ xs) ys =
      rw (commands-append xs ys)
        (sym (append_assoc (feed [] x.command) (commands xs) (commands ys)))

  -- What a node keeps about its log: the entries, the commit index, the last entry applied, and
  -- the commands handed to the state machine.
  pub record Book (log : List (LogEntry C)) (commit_index last_applied : ℕ) (applied : List C)
      : Type 0 where
    pub in_log : commit_index < length log
    pub in_order : last_applied ≤ commit_index
    pub fed : applied ≡ commands (take (suc last_applied) log)

  abbrev pub IsConsistent : RaftNode C → Type 0
  IsConsistent n = Book n.log n.commit_index n.last_applied n.applied

  feed-append : (xs : List C) (c : Option C) → feed xs c ≡ xs ++ (feed [] c ++ [])
  feed-append xs none = sym (append-nil xs)
  feed-append xs (some c) = refl

  feed-commands :
      (log : List (LogEntry C)) (i : ℕ) (e : LogEntry C)
      → get_elem? log (suc i) ≡ some e
      → feed (commands (take (suc i) log)) e.command ≡ commands (take (suc (suc i)) log)
  feed-commands log i e h =
      rw (take-suc log (suc i) e h)
        (rw commands-append (feed-append (commands (take (suc i) log)) e.command))

  abbrev pub fed_up_to : ℕ → RaftNode C → RaftNode C
  fed_up_to m n = record n { last_applied = m; applied = commands (take (suc m) n.log) }

  apply_rounds_lem :
      (k m : ℕ) (n : RaftNode C)
      → n.last_applied + k ≡ m
      → m < length n.log
      → n.applied ≡ commands (take (suc n.last_applied) n.log)
      → apply_rounds k n ≡ (fed_up_to m n, ok tt)
  unfolding apply_rounds
  apply_rounds_lem zero m n s h e =
      let p : n.last_applied ≡ m = omega arith in
      ap₂ (λ (l : ℕ) (a : List C). (record n { last_applied = l; applied = a }, ok tt)) p
        (e ∙ ap (λ (l : ℕ). commands (take (suc l) n.log)) p)
  apply_rounds_lem (suc k) m n s h e =
      let (x, hit) = get_elem?-some n.log (suc n.last_applied) (omega arith) in
      rw (hit, apply_rounds)
        (apply_rounds_lem k m
          (record n { last_applied = suc n.last_applied; applied = feed n.applied x.command })
          (omega arith) h
          (ap (λ (a : List C). feed a x.command) e ∙ feed-commands n.log n.last_applied x hit))

  -- Within the log, applying the entries never raises: the node ends with `last_applied` at the
  -- commit index and the state machine fed with all commands up to it, in order, each once.
  pub apply_entries_lem :
      (n : RaftNode C) → IsConsistent n → apply_entries n ≡ (fed_up_to n.commit_index n, ok tt)
  unfolding apply_entries
  apply_entries_lem n b =
      apply_rounds_lem (n.commit_index - n.last_applied) n.commit_index n (omega arith) b.in_log
        b.fed

  pub fed_up_to-Book :
      (n : RaftNode C) (N : ℕ) → N < length n.log → Book n.log N N (commands (take (suc N) n.log))
  fed_up_to-Book n N h = record { in_log = h; in_order = omega arith; fed = refl }

  pub recommitted :
      (n : RaftNode C) (N : ℕ)
      → IsConsistent n
      → n.commit_index ≤ N
      → N < length n.log
      → IsConsistent (record n { commit_index = N })
  recommitted n N b p q = record { in_log = q; in_order = omega (arith, b.in_order); fed = b.fed }

  -- The new commit index of a leader: a place past the old one, in the log, whose entry is of the
  -- leader's term and which more than half of the cluster, the leader counted in, holds.
  pub record Committable (n : RaftNode C) (N : ℕ) : Type 0 where
    pub entry : LogEntry C
    pub entry_at : get_elem? n.log N ≡ some entry
    pub of_term : entry.term ≡ n.current_term
    pub quorum : length n.peers + 1 < 2 * (1 + count_peers n.match_index N n.peers)

  can_commit-Committable : (n : RaftNode C) (N : ℕ) → can_commit n N ≡ true → Committable n N
  unfolding can_commit
  can_commit-Committable n N h = elim (Option-cases (get_elem? n.log N)) [
    | inl e ↦ ground arith
    | inr (x, e) ↦ record { entry = x; entry_at = e; of_term = ground arith; quorum = ground arith }
  ]

  Committable-can_commit : (n : RaftNode C) (N : ℕ) → Committable n N → can_commit n N ≡ true
  unfolding can_commit
  Committable-can_commit n N c = rw (c.entry_at, can_commit) (ground arith)

  -- What the search for a commit index finds among the `rounds` places past the old one.
  data Found (n : RaftNode C) (rounds : ℕ) : Option ℕ → Type 0 where
    newest :
        (N : ℕ)
        → can_commit n N ≡ true
        → n.commit_index < N
        → N ≤ n.commit_index + rounds
        → ((M : ℕ) → N < M → M ≤ n.commit_index + rounds → can_commit n M ≡ false)
        → Found n rounds (some N)
    nothing :
        ((M : ℕ) → n.commit_index < M → M ≤ n.commit_index + rounds → can_commit n M ≡ false)
        → Found n rounds none

  at_top :
      (n : RaftNode C) (top M : ℕ)
      → can_commit n top ≡ false
      → (M < top → can_commit n M ≡ false)
      → M ≤ top
      → can_commit n M ≡ false
  at_top n top M t below h = elim (dec_lt M top) [
    | yes p ↦ below p
    | no p ↦ let e : M ≡ top = omega arith in rw e t
  ]

  Found-suc :
      (n : RaftNode C) (rounds : ℕ) (o : Option ℕ)
      → can_commit n (n.commit_index + suc rounds) ≡ false
      → Found n rounds o
      → Found n (suc rounds) o
  Found-suc n rounds o t (newest N c low high above) =
      newest N c low (omega arith)
        λ M p q. at_top n (n.commit_index + suc rounds) M t (λ r. above M p (omega arith)) q
  Found-suc n rounds o t (nothing above) =
      nothing λ M p q. at_top n (n.commit_index + suc rounds) M t (λ r. above M p (omega arith)) q

  find_commit-Found : (n : RaftNode C) (rounds : ℕ) → Found n rounds (find_commit n rounds)
  unfolding find_commit
  find_commit-Found n zero = nothing (λ M p q. absurd (omega arith))
  find_commit-Found n (suc rounds) =
      elim (Bool-cases (can_commit n (n.commit_index + suc rounds))) [
        | inl b ↦ rw b (
            newest (n.commit_index + suc rounds) b (omega arith) (omega arith)
              (λ M p q. absurd (omega arith)))
        | inr b ↦ rw b (Found-suc n rounds (find_commit n rounds) b (find_commit-Found n rounds))
      ]

  -- What `update_leader_commit` may do.
  pub data CommitOutcome (n : RaftNode C) : RaftNode C × Result Bool → Type 0 where
    not_leader : n.state ≢ leader → CommitOutcome n (n, ok false)
    none_new :
        n.state ≡ leader
        → ((M : ℕ) → n.commit_index < M → M < length n.log → ¬ Committable n M)
        → CommitOutcome n (n, ok false)
    advanced :
        (N : ℕ)
        → n.state ≡ leader
        → n.commit_index < N
        → Committable n N
        → ((M : ℕ) → N < M → M < length n.log → ¬ Committable n M)
        → CommitOutcome n (fed_up_to N (record n { commit_index = N }), ok true)

  refuted : (n : RaftNode C) (M : ℕ) → can_commit n M ≡ false → ¬ Committable n M
  refuted n M h c = cc (Committable-can_commit n M c)

  commit_found-Outcome :
      (n : RaftNode C) (o : Option ℕ)
      → IsConsistent n
      → n.state ≡ leader
      → Found n (length n.log - 1 - n.commit_index) o
      → CommitOutcome n (commit_found n o)
  unfolding commit_found
  commit_found-Outcome n o b l (newest N c low high above) =
      let committed = can_commit-Committable n N c in
      rw
        (apply_entries_lem (record n { commit_index = N })
          (recommitted n N b (omega arith) (omega (arith, b.in_log))))
        (advanced N l low committed (λ M p q. refuted n M (above M p (omega (arith, b.in_log)))))
  commit_found-Outcome n o b l (nothing above) =
      none_new l (λ M p q. refuted n M (above M p (omega (arith, b.in_log))))

  -- On a consistent node `update_leader_commit` returns: a leader advances to the last place that
  -- can be committed, if there is one past its commit index, and applies up to it; in all other
  -- cases nothing changes.
  pub update_leader_commit-Outcome :
      (n : RaftNode C) → IsConsistent n → CommitOutcome n (update_leader_commit n)
  unfolding update_leader_commit
  update_leader_commit-Outcome n b = elim (Bool-cases (is_leader n.state)) [
    | inl l ↦ rw l (
        commit_found-Outcome n _ b (ground arith)
          (find_commit-Found n (length n.log - 1 - n.commit_index)))
    | inr l ↦ rw l (not_leader (ground arith))
  ]
