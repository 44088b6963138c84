-- ===== src/Raft/Prefix.antt =====
-- The leader's messages keep the part of a follower's log that the leader has.
use solidity_course_blockcha.Prelude.{
  ℕ, suc, ◌≤◌, ◌<◌, ◌≡◌, refl, ap, sym, dec_le, take-append_left, subst, ◌∙◌, inl, inr, some,
  get_elem?, List, [], ◌∷◌, arith, length, Option-cases, Bool-cases, Bool, ◌==◌, take, take-take,
  get_elem?-lt, get_elem?-take, length-take, length-append, ==-false→ne,
}
use solidity_course_blockcha.Raft.Node.{LogEntry, RaftNode, AppendEntriesArgs}
use solidity_course_blockcha.Raft.Follower.{handle_append_entries, append_all, append_entry}
use solidity_course_blockcha.Raft.Matching.{
  Follows, FromLeader, LogAfter, kept, cut, grown, handle-LogAfter,
}

module _ {C : Type 0} where
  -- A prefix shared with the leader is not touched.
  same_entry :
      (k j : ℕ) (log leader_log : List (LogEntry C)) (o e : LogEntry C)
      → take k log ≡ take k leader_log
      → j < k
      → get_elem? log j ≡ some o
      → get_elem? leader_log j ≡ some e
      → o ≡ e
  same_entry k j log leader_log o e p h a b = cc (
    get_elem?-take k log j h,
    get_elem?-take k leader_log j h,
    ap (λ (l : List (LogEntry C)). get_elem? l j) p,
  )

  append_entry-keeps :
      (k : ℕ) (log leader_log : List (LogEntry C)) (e : LogEntry C)
      → k ≤ length log
      → take k log ≡ take k leader_log
      → get_elem? leader_log e.index ≡ some e
      → (take k (append_entry log e) ≡ take k log) × (k ≤ length (append_entry log e))
  unfolding append_entry
  append_entry-keeps k log leader_log e h p at = elim (Option-cases (get_elem? log e.index)) [
    | inl miss ↦
        rw (miss, append_entry)
          (take-append_left k log (e ∷ []) h, omega (arith, length-append log (e ∷ [])))
    | inr (old, hit) ↦ elim (Bool-cases (old.term == e.term)) [
      | inl b ↦ rw (hit, append_entry) (rw b (refl, h))
      | inr b ↦
          let far : k ≤ e.index = elim (dec_le k e.index) [
            | yes q ↦ q
            | no q ↦ absurd (
                ==-false→ne _ _ b (
                  ap (λ (x : LogEntry C). x.term)
                    (same_entry k e.index log leader_log old e p (omega arith) hit at)))
          ] in
          let room : e.index < length log = get_elem?-lt log e.index old hit in
          rw (hit, append_entry)
            (rw b (
              take-append_left k (take e.index log) (e ∷ [])
                    (omega (arith, length-take e.index log))
                  ∙ take-take k e.index log far,
              omega (arith, length-append (take e.index log) (e ∷ []), length-take e.index log),
            ))
    ]
  ]

  pub append_all-keeps :
      (es log leader_log : List (LogEntry C)) (i k : ℕ)
      → Follows leader_log i es
      → k ≤ length log
      → take k log ≡ take k leader_log
      → (take k (append_all log es) ≡ take k log) × (k ≤ length (append_all log es))
  unfolding append_all
  append_all-keeps [] log leader_log i k f h p = (refl, h)
  append_all-keeps (e ∷ es) log leader_log i k (at, index, f) h p =
      let (same, room) =
        append_entry-keeps k log leader_log e h p
          (subst (λ k. get_elem? leader_log k ≡ some e) (sym index) at) in
      let (same', room') =
        append_all-keeps es (append_entry log e) leader_log (suc i) k f room (same ∙ p) in
      (same' ∙ same, room')

  pub LogAfter-keeps :
      (leader_log : List (LogEntry C)) (args : AppendEntriesArgs C) (k : ℕ)
      {log after : List (LogEntry C)} {b : Bool}
      → LogAfter args log after b
      → FromLeader leader_log args
      → k ≤ length log
      → take k log ≡ take k leader_log
      → (take k after ≡ take k log) × (k ≤ length after)
  LogAfter-keeps leader_log args k kept sent h p = (refl, h)
  LogAfter-keeps leader_log args k {log} (cut e at t) sent h p =
      let far : k ≤ args.prev_log_index = elim (dec_le k args.prev_log_index) [
        | yes q ↦ q
        | no q ↦ absurd (
            t (
              ap (λ (x : LogEntry C). x.term)
                (same_entry k args.prev_log_index log leader_log e sent.previous p (omega arith) at
                  sent.previous_at)
              ∙ sent.previous_term))
      ] in
      (
        take-take k args.prev_log_index log far,
        omega
            (arith, length-take args.prev_log_index log, get_elem?-lt log args.prev_log_index e at),
      )
  LogAfter-keeps leader_log args k {log} (grown e at t b) sent h p =
      append_all-keeps args.entries log leader_log (suc args.prev_log_index) k sent.entries_from h p

  -- A message of the leader removes nothing of a prefix that the two logs share.
  pub handle-keeps_prefix :
      (leader_log : List (LogEntry C)) (args : AppendEntriesArgs C) (k now : ℕ) (n : RaftNode C)
      → FromLeader leader_log args
      → k ≤ length n.log
      → take k n.log ≡ take k leader_log
      → (take k (handle_append_entries now args n).0.log ≡ take k n.log)
        × (k ≤ length (handle_append_entries now args n).0.log)
  handle-keeps_prefix leader_log args k now n sent h p =
      LogAfter-keeps leader_log args k (handle-LogAfter now args n) sent h p
