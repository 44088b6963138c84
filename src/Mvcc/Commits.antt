-- ===== src/Mvcc/Commits.antt =====
-- Commits: they are never refused, and keep the manager's books.
use solidity_course_blockcha.Prelude.{
  ℕ, ◌≡◌, ◌≢◌, refl, ◌∙◌, inl, inr, none, some, List, [], ◌∷◌, arith, ℕ_discrete, Option-cases,
  Bool-cases, Bool, true, false, contains, remove, contains-remove,
}
use solidity_course_blockcha.Prelude.Dict
use solidity_course_blockcha.Prelude.Dict.{get-put_self, get-put_ne}
use solidity_course_blockcha.Mvcc.Version.{active, committed, Transaction, is_active}
use solidity_course_blockcha.Mvcc.Manager.{
  Manager, txn_of, put_txn, commit_transaction, has_conflict, add_id,
}
use solidity_course_blockcha.Mvcc.Lifecycle.{IsSound, contains-add_id, ended-IsSound}

module _ {K : Type 0} (dec : Discrete K) where
  no_conflict :
      (txns : List (ℕ × Transaction K)) (txn : Transaction K) (ids : List ℕ)
      → ((j : ℕ) (t : Transaction K)
          → contains j ids ≡ true
          → Dict.get ℕ_discrete txns j ≡ some t
          → t.state ≡ active)
      → has_conflict dec txns txn ids ≡ false
  unfolding has_conflict
  no_conflict txns txn [] h = refl
  no_conflict txns txn (id ∷ ids) h =
      let rest = no_conflict txns txn ids (λ j t c e. h j t (ground arith) e) in
      elim (Option-cases (Dict.get ℕ_discrete txns id)) [
        | inl e ↦ rw e rest
        | inr (t, e) ↦
            rw (e, rest) (let a : t.state ≡ active = h id t (ground arith) e in ground arith)
      ]

module _ {K D : Type 0} (dec : Discrete K) where
  pub committed_of : ℕ → Transaction K → Manager K D → Manager K D
  committed_of id txn m = record m {
    txns = put_txn m id (record txn { state = committed });
    committed_txns = add_id id m.committed_txns;
    active_txns = remove id m.active_txns;
  }

  -- What a commit may do in a sound state.
  pub data Committed (id : ℕ) (m : Manager K D) : Manager K D × Bool → Type 0 where
    unknown : txn_of m id ≡ none → Committed id m (m, false)
    ended :
        (txn : Transaction K)
        → txn_of m id ≡ some txn
        → txn.state ≢ active
        → Committed id m (m, false)
    done :
        (txn : Transaction K)
        → txn_of m id ≡ some txn
        → txn.state ≡ active
        → Committed id m (committed_of id txn m, true)

  pub commit-Committed :
      (id : ℕ) (m : Manager K D) → IsSound m → Committed id m (commit_transaction dec id m)
  unfolding commit_transaction committed_of
  commit-Committed id m s = elim (Option-cases (txn_of m id)) [
    | inl e ↦ rw (e, commit_transaction) (unknown e)
    | inr (txn, e) ↦ elim (Bool-cases (is_active txn.state)) [
      | inl a ↦
          rw (e, commit_transaction)
            (rw a (
              rw (no_conflict dec m.txns txn m.active_txns (λ j t c h. s.state_active j t h c))
                (done txn e (ground arith))))
      | inr a ↦ rw (e, commit_transaction) (rw a (ended txn e (ground arith)))
    ]
  ]

  pub commit-IsSound :
      (id : ℕ) (m : Manager K D) {r : Manager K D × Bool}
      → IsSound m
      → Committed id m r
      → IsSound r.0
  unfolding committed_of
  commit-IsSound id m s (Committed.unknown h) = s
  commit-IsSound id m s (ended txn h n) = s
  commit-IsSound id m s (done txn h a) =
      ended-IsSound m s id txn (record txn { state = committed }) h refl m.versions
        (add_id id m.committed_txns) m.aborted_txns (λ e. cc)
        (λ j c. ground (arith, contains-add_id j id m.committed_txns))

  commit-accepted :
      (id : ℕ) (m : Manager K D) {r : Manager K D × Bool} (txn : Transaction K)
      → txn_of m id ≡ some txn
      → txn.state ≡ active
      → Committed id m r
      → (r.1 ≡ true)
        × (contains id r.0.committed_txns ≡ true)
        × (contains id r.0.active_txns ≡ false)
  unfolding committed_of
  commit-accepted id m txn h a (Committed.unknown n) = cc
  commit-accepted id m txn h a (ended t n b) = ground arith
  commit-accepted id m txn h a (done t n b) = (
    refl,
    contains-add_id id id m.committed_txns ∙ ground arith,
    contains-remove id id m.active_txns ∙ ground arith,
  )

  -- In a sound state the commit of an active transaction is never refused, whatever the write sets
  -- of the transactions are; it makes the transaction committed and no longer active.
  pub commit_never_refused :
      (id : ℕ) (m : Manager K D) (txn : Transaction K)
      → IsSound m
      → txn_of m id ≡ some txn
      → txn.state ≡ active
      → ((commit_transaction dec id m).1 ≡ true)
        × (contains id (commit_transaction dec id m).0.committed_txns ≡ true)
        × (contains id (commit_transaction dec id m).0.active_txns ≡ false)
  commit_never_refused id m txn s h a = commit-accepted id m txn h a (commit-Committed id m s)
