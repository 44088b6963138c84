-- ===== src/Raft/Matching.antt =====
-- The log of a follower against the log of the leader whose messages it handles.
use solidity_course_blockcha.Prelude.{
  ℕ, suc, ◌+◌, ◌≤◌, ◌<◌, ◌≡◌, ◌≢◌, ap, sym, subst, ◌∙◌, inl, inr, some, get_elem?, List, [], ◌∷◌,
  ◌++◌, arith, length, Option-cases, ltb, Bool-cases, Bool, true, false, ◌==◌, take, take-suc,
  take_all, take-take, get_elem?-none, get_elem?-lt, get_elem?-take, length-take, length-append,
  ==-true→eq, ==-false→ne, add-zero, add-suc, suc-add,
}
use solidity_course_blockcha.Raft.Node.{
  LogEntry, RaftNode, AppendEntriesArgs, AppendEntriesReply, Result, ok, index_error, adopt_term,
}
use solidity_course_blockcha.Raft.Follower.{
  handle_append_entries, check_previous, accept_entries, follow, append_all, append_entry,
}
use solidity_course_blockcha.Raft.Steps.{advance_commit-Advanced}

module _ {C : Type 0} where
  -- Where two logs have an entry of one term at one place, they agree up to that place.
  pub record Matches (log leader_log : List (LogEntry C)) : Type 0 where
    pub at :
        (i : ℕ) (e f : LogEntry C)
        → get_elem? log i ≡ some e
        → get_elem? leader_log i ≡ some f
        → e.term ≡ f.term
        → take (suc i) log ≡ take (suc i) leader_log

  -- The entries stand in the leader's log from place `i` on, each under its own index.
  abbrev pub Follows : List (LogEntry C) → ℕ → List (LogEntry C) → Type 0
  Follows leader_log i [] = Unit
  Follows leader_log i (e ∷ es) =
      (get_elem? leader_log i ≡ some e) × (e.index ≡ i) × Follows leader_log (suc i) es

  -- A message that a leader with this log sends.
  pub record FromLeader (leader_log : List (LogEntry C)) (args : AppendEntriesArgs C) : Type 0 where
    pub previous : LogEntry C
    pub previous_at : get_elem? leader_log args.prev_log_index ≡ some previous
    pub previous_term : previous.term ≡ args.prev_log_term
    pub entries_from : Follows leader_log (suc args.prev_log_index) args.entries

  take-Matches : (k : ℕ) (log : List (LogEntry C)) → Matches (take k log) log
  take-Matches k log = record {
    at = λ i e f p q t.
        take-take (suc i) k log (omega (arith, get_elem?-lt (take k log) i e p, length-take k log));
  }

  Matches-take :
      (k : ℕ) (log leader_log : List (LogEntry C))
      → Matches log leader_log
      → Matches (take k log) leader_log
  Matches-take k log leader_log m = record {
    at = λ i e f p q t.
        let h : i < k = omega (arith, get_elem?-lt (take k log) i e p, length-take k log) in
        take-take (suc i) k log h ∙ m.at i e f (sym (get_elem?-take k log i h) ∙ p) q t;
  }

  -- The log after one more entry agrees with the leader's one place further.
  record Agrees (log leader_log : List (LogEntry C)) (i : ℕ) : Type 0 where
    matches : Matches log leader_log
    prefix : take i log ≡ take i leader_log
    long : i ≤ length log

  extended :
      (log leader_log : List (LogEntry C)) (i : ℕ) (e : LogEntry C)
      → Agrees log leader_log i
      → get_elem? leader_log i ≡ some e
      → Agrees (take i log ++ e ∷ []) leader_log (suc i)
  extended log leader_log i e a at =
      let same : take i log ++ e ∷ [] ≡ take (suc i) leader_log =
        ap (λ l. l ++ e ∷ []) a.prefix ∙ sym (take-suc leader_log i e at) in
      record {
        matches = rw same (take-Matches (suc i) leader_log);
        prefix = rw same (take-take (suc i) (suc i) leader_log (omega arith));
        long = omega (arith, length-append (take i log) (e ∷ []), length-take i log, a.long);
      }

  append_entry-Agrees :
      (log leader_log : List (LogEntry C)) (e : LogEntry C)
      → Agrees log leader_log e.index
      → get_elem? leader_log e.index ≡ some e
      → Agrees (append_entry log e) leader_log (suc e.index)
  unfolding append_entry
  append_entry-Agrees log leader_log e a at = elim (Option-cases (get_elem? log e.index)) [
    | inl miss ↦
        rw (miss, append_entry)
          (subst (λ l. Agrees (l ++ e ∷ []) leader_log (suc e.index))
            (take_all log e.index (get_elem?-none log e.index miss))
            (extended log leader_log e.index e a at))
    | inr (old, hit) ↦ elim (Bool-cases (old.term == e.term)) [
      | inl b ↦
          rw (hit, append_entry)
            (rw b (record {
              matches = a.matches;
              prefix = a.matches.at e.index old e hit at (==-true→eq old.term e.term b);
              long = get_elem?-lt log e.index old hit;
            }))
      | inr b ↦ rw (hit, append_entry) (rw b (extended log leader_log e.index e a at))
    ]
  ]

  append_all-Agrees :
      (es log leader_log : List (LogEntry C)) (i : ℕ)
      → Agrees log leader_log i
      → Follows leader_log i es
      → Agrees (append_all log es) leader_log (i + length es)
  unfolding append_all
  append_all-Agrees [] log leader_log i a f = rw add-zero a
  append_all-Agrees (e ∷ es) log leader_log i a (at, index, f) =
      let stepped : Agrees (append_entry log e) leader_log (suc i) =
        subst (λ k. Agrees (append_entry log e) leader_log (suc k)) index
          (append_entry-Agrees log leader_log e (subst (λ k. Agrees log leader_log k) (sym index) a)
            (subst (λ k. get_elem? leader_log k ≡ some e) (sym index) at)) in
      rw add-suc
        (rw (← suc-add) (append_all-Agrees es (append_entry log e) leader_log (suc i) stepped f))

  log-accept_entries :
      (args : AppendEntriesArgs C) (n : RaftNode C)
      → (accept_entries args n).0.log ≡ append_all n.log args.entries
  unfolding accept_entries
  log-accept_entries args n =
      ap (λ (m : RaftNode C). m.log) (advance_commit-Advanced args.leader_commit _)

  pub log-follow : (now term : ℕ) (n : RaftNode C) → (follow now term n).log ≡ n.log
  unfolding follow adopt_term
  log-follow now term n = ground arith

  -- The three ways in which a message can change the log.
  pub data LogAfter (args : AppendEntriesArgs C) (log : List (LogEntry C))
      : List (LogEntry C) → Bool → Type 0 where
    kept : LogAfter args log log false
    cut :
        (e : LogEntry C)
        → get_elem? log args.prev_log_index ≡ some e
        → e.term ≢ args.prev_log_term
        → LogAfter args log (take args.prev_log_index log) false
    grown :
        (e : LogEntry C)
        → get_elem? log args.prev_log_index ≡ some e
        → e.term ≡ args.prev_log_term
        → (b : Bool) → LogAfter args log (append_all log args.entries) b

  abbrev pub succeeded : RaftNode C × Result AppendEntriesReply → Bool
  succeeded (n, ok reply) = reply.success
  succeeded (n, index_error) = false

  check_previous-LogAfter :
      (args : AppendEntriesArgs C) (n : RaftNode C)
      → LogAfter args n.log (check_previous args n).0.log (succeeded (check_previous args n))
  unfolding check_previous
  check_previous-LogAfter args n = elim (Option-cases (get_elem? n.log args.prev_log_index)) [
    | inl e ↦ rw (e, check_previous) kept
    | inr (x, e) ↦ elim (Bool-cases (x.term == args.prev_log_term)) [
      | inl b ↦
          rw (e, check_previous) (rw b (rw log-accept_entries (grown x e (==-true→eq _ _ b) _)))
      | inr b ↦ rw (e, check_previous) (rw b (cut x e (==-false→ne _ _ b)))
    ]
  ]

  pub handle-LogAfter :
      (now : ℕ) (args : AppendEntriesArgs C) (n : RaftNode C)
      → LogAfter args n.log
          (handle_append_entries now args n).0.log
          (succeeded (handle_append_entries now args n))
  unfolding handle_append_entries
  handle-LogAfter now args n = elim (Bool-cases (ltb args.term n.current_term)) [
    | inl b ↦ rw b kept
    | inr b ↦ rw b (
        subst
          (λ l.
            LogAfter args l (check_previous args (follow now args.term n)).0.log
              (succeeded (check_previous args (follow now args.term n))))
          (log-follow now args.term n) (check_previous-LogAfter args (follow now args.term n)))
  ]

  module _ (leader_log : List (LogEntry C)) (args : AppendEntriesArgs C)
      (sent : FromLeader leader_log args) where
    previous-Agrees :
        (log : List (LogEntry C)) (e : LogEntry C)
        → Matches log leader_log
        → get_elem? log args.prev_log_index ≡ some e
        → e.term ≡ args.prev_log_term
        → Agrees log leader_log (suc args.prev_log_index)
    previous-Agrees log e m at t = record {
      matches = m;
      prefix =
          m.at args.prev_log_index e sent.previous at sent.previous_at (t ∙ sym sent.previous_term);
      long = get_elem?-lt log args.prev_log_index e at;
    }

    grown-Agrees :
        (log : List (LogEntry C)) (e : LogEntry C)
        → Matches log leader_log
        → get_elem? log args.prev_log_index ≡ some e
        → e.term ≡ args.prev_log_term
        → Agrees
            (append_all log args.entries)
            leader_log
            (suc args.prev_log_index + length args.entries)
    grown-Agrees log e m at t =
        append_all-Agrees args.entries log leader_log (suc args.prev_log_index)
          (previous-Agrees log e m at t) sent.entries_from

    LogAfter-Matches :
        {log after : List (LogEntry C)} {b : Bool}
        → LogAfter args log after b
        → Matches log leader_log
        → Matches after leader_log
    LogAfter-Matches kept m = m
    LogAfter-Matches {log} (cut e at t) m = Matches-take args.prev_log_index log leader_log m
    LogAfter-Matches {log} (grown e at t b) m = (grown-Agrees log e m at t).matches

    LogAfter-prefix :
        {log after : List (LogEntry C)} {b : Bool}
        → LogAfter args log after b
        → Matches log leader_log
        → b ≡ true
        → take (suc args.prev_log_index + length args.entries) after
          ≡ take (suc args.prev_log_index + length args.entries) leader_log
    LogAfter-prefix kept m b = cc
    LogAfter-prefix (cut e at t) m b = cc
    LogAfter-prefix {log} (grown e at t b) m h = (grown-Agrees log e m at t).prefix

    -- Whatever the answer, a message of the leader keeps the log matching with the leader's.
    pub handle-Matches :
        (now : ℕ) (n : RaftNode C)
        → Matches n.log leader_log
        → Matches (handle_append_entries now args n).0.log leader_log
    handle-Matches now n m = LogAfter-Matches (handle-LogAfter now args n) m

    -- Once a message of the leader succeeds, a log that matched the leader's agrees with it up to the last entry sent.
    pub success_agrees :
        (now : ℕ) (n : RaftNode C)
        → Matches n.log leader_log
        → succeeded (handle_append_entries now args n) ≡ true
        → take
            (suc args.prev_log_index + length args.entries)
            (handle_append_entries now args n).0.log
          ≡ take (suc args.prev_log_index + length args.entries) leader_log
    success_agrees now n m h = LogAfter-prefix (handle-LogAfter now args n) m h
