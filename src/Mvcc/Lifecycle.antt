-- ===== src/Mvcc/Lifecycle.antt =====
-- The life of a transaction: the manager's sets of ids, fresh ids, and commits.
use solidity_course_blockcha.Prelude.{
  ℕ, ◌<◌, ◌≡◌, ◌⊎◌, ◌≢◌, refl, ◌∙◌, inl, inr, none, some, List, [], ◌∷◌, ◌++◌, arith, String,
  ℕ_discrete, Option-cases, Bool-cases, true, false, ◌==◌, if◌then◌else◌, contains, remove,
  contains-remove,
}
use solidity_course_blockcha.Prelude.Dict
use solidity_course_blockcha.Prelude.Dict.{get-put_self, get-put_ne}
use solidity_course_blockcha.Mvcc.Version.{
  active, aborted, IsolationLevel, VersionRecord, Transaction, set_committed, is_committed,
}
use solidity_course_blockcha.Mvcc.Manager.{
  Manager, txn_of, put_txn, new_txn, begin_transaction, abort_transaction, do_abort, rollback, init,
  add_id,
}

contains-append :
    (k x : ℕ) (xs : List ℕ) → contains k (xs ++ x ∷ []) ≡ (if x == k then true else contains k xs)
contains-append k x [] = refl
contains-append k x (y ∷ xs) = ground (arith, contains-append k x xs)

pub contains-add_id :
    (k x : ℕ) (xs : List ℕ) → contains k (add_id x xs) ≡ (if x == k then true else contains k xs)
contains-add_id k x xs = elim (Bool-cases (contains x xs)) [
  | inl b ↦ rw b (ground arith)
  | inr b ↦ rw b refl
]

-- The manager's books: an id below the next one for each transaction, the active ones in the
-- table of active transactions and no others, and none of these among the committed ones.
module _ {K D : Type 0} where
  pub record IsSound (m : Manager K D) : Type 0 where
    pub known :
        (id : ℕ)
        → contains id m.active_txns ≡ true
        → (txn : Transaction K) × (txn_of m id ≡ some txn)
    pub state_active :
        (id : ℕ) (txn : Transaction K)
        → txn_of m id ≡ some txn
        → contains id m.active_txns ≡ true
        → txn.state ≡ active
    pub active_state :
        (id : ℕ) (txn : Transaction K)
        → txn_of m id ≡ some txn
        → txn.state ≡ active
        → contains id m.active_txns ≡ true
    pub own_id : (id : ℕ) (txn : Transaction K) → txn_of m id ≡ some txn → txn.txn_id ≡ id
    pub below : (id : ℕ) (txn : Transaction K) → txn_of m id ≡ some txn → id < m.next_txn_id
    pub apart : (id : ℕ) → contains id m.committed_txns ≡ true → contains id m.active_txns ≡ false
    pub committed_below : (id : ℕ) → contains id m.committed_txns ≡ true → id < m.next_txn_id

  pub IsSound-init : IsSound (init {K = K} {D = D})
  unfolding init Dict.get
  IsSound-init = record {
    known = λ id h. cc;
    state_active = λ id txn h a. cc;
    active_state = λ id txn h a. cc;
    own_id = λ id txn h. cc;
    below = λ id txn h. cc;
    apart = λ id h. refl;
    committed_below = λ id h. cc;
  }

  txn_of-put :
      (m : Manager K D) (id j : ℕ) (txn : Transaction K)
      → Dict.get ℕ_discrete (put_txn m id txn) j ≡ (if id == j then some txn else txn_of m j)
  txn_of-put m id j txn = elim (ℕ_discrete id j) [
    | yes e ↦ rw (← e) (get-put_self ℕ_discrete m.txns id txn ∙ ground arith)
    | no e ↦ get-put_ne ℕ_discrete m.txns id j txn e ∙ ground arith
  ]

  known-put :
      (m : Manager K D) (id j : ℕ) (txn : Transaction K)
      → ((id == j) ≡ false → (t : Transaction K) × (txn_of m j ≡ some t))
      → (t : Transaction K) × (Dict.get ℕ_discrete (put_txn m id txn) j ≡ some t)
  known-put m id j txn old = elim (Bool-cases (id == j)) [
    | inl e ↦ (txn, txn_of-put m id j txn ∙ rw e refl)
    | inr e ↦ let (t, h) = old e in (t, txn_of-put m id j txn ∙ rw e h)
  ]

  module _ (m : Manager K D) (s : IsSound m) (id : ℕ) (txn txn' : Transaction K)
      (found : txn_of m id ≡ some txn) (same_id : txn'.txn_id ≡ txn.txn_id) where
    -- The object of a transaction is replaced by one in the same state.
    pub touched-IsSound :
        (vs : List (String × List (K × List (VersionRecord D))))
        → txn'.state ≡ txn.state
        → IsSound (record m { txns = put_txn m id txn'; versions = vs })
    touched-IsSound vs same = record {
      known = λ j a. known-put m id j txn' (λ e. s.known j a);
      state_active = λ j t h a.
          ground (arith, txn_of-put m id j txn', s.state_active j t, s.state_active id txn);
      active_state = λ j t h a.
          ground (arith, txn_of-put m id j txn', s.active_state j t, s.active_state id txn);
      own_id = λ j t h. ground (arith, txn_of-put m id j txn', s.own_id j t, s.own_id id txn);
      below = λ j t h. ground (arith, txn_of-put m id j txn', s.below j t, s.below id txn);
      apart = s.apart;
      committed_below = s.committed_below;
    }

    -- The transaction ends: its object leaves the active state, and its id the active ones.
    pub ended-IsSound :
        (vs : List (String × List (K × List (VersionRecord D)))) (done gone : List ℕ)
        → txn'.state ≢ active
        → ((j : ℕ) → contains j done ≡ true → (contains j m.committed_txns ≡ true) ⊎ (j ≡ id))
        → IsSound (record m {
          txns = put_txn m id txn';
          versions = vs;
          committed_txns = done;
          aborted_txns = gone;
          active_txns = remove id m.active_txns;
        })
    ended-IsSound vs done gone over fewer = record {
      known = λ j a.
          known-put m id j txn'
            (λ e. s.known j (ground (arith, contains-remove id j m.active_txns)));
      state_active = λ j t h a.
          ground
            (arith, txn_of-put m id j txn', s.state_active j t, contains-remove id j m.active_txns);
      active_state = λ j t h a.
          ground
            (arith, txn_of-put m id j txn', s.active_state j t, contains-remove id j m.active_txns);
      own_id = λ j t h. ground (arith, txn_of-put m id j txn', s.own_id j t, s.own_id id txn);
      below = λ j t h. ground (arith, txn_of-put m id j txn', s.below j t, s.below id txn);
      apart = λ j h. ground (arith, fewer j, s.apart j, contains-remove id j m.active_txns);
      committed_below = λ j h. ground (arith, fewer j, s.committed_below j, s.below id txn);
    }

  pub unused_id :
      (m : Manager K D)
      → IsSound m
      → (contains m.next_txn_id m.active_txns ≡ false)
        × (contains m.next_txn_id m.committed_txns ≡ false)
  unused_id m s = (
    elim (Bool-cases (contains m.next_txn_id m.active_txns)) [
      | inl b ↦
          let (t, h) = s.known m.next_txn_id b in absurd (omega (arith, s.below m.next_txn_id t h))
      | inr b ↦ b
    ],
    elim (Bool-cases (contains m.next_txn_id m.committed_txns)) [
      | inl b ↦ absurd (omega (arith, s.committed_below m.next_txn_id b))
      | inr b ↦ b
    ],
  )

  pub unused_txn : (m : Manager K D) → IsSound m → txn_of m m.next_txn_id ≡ none
  unused_txn m s = elim (Option-cases (txn_of m m.next_txn_id)) [
    | inl e ↦ e
    | inr (t, h) ↦ absurd (omega (arith, s.below m.next_txn_id t h))
  ]

  pub begin-IsSound :
      (isolation : IsolationLevel) (now : ℕ) (m : Manager K D)
      → IsSound m
      → IsSound (begin_transaction isolation now m).0
  unfolding begin_transaction new_txn
  begin-IsSound isolation now m s =
      let id = m.next_txn_id in
      let txn = new_txn isolation now m in
      record {
        known = λ j a.
            known-put m id j txn
              (λ e. s.known j (ground (arith, contains-append j id m.active_txns)));
        state_active = λ j t h a.
            ground (
              arith,
              txn_of-put m id j txn,
              s.state_active j t,
              contains-append j id m.active_txns,
            );
        active_state = λ j t h a.
            ground (
              arith,
              txn_of-put m id j txn,
              s.active_state j t,
              contains-append j id m.active_txns,
            );
        own_id = λ j t h. ground (arith, txn_of-put m id j txn, s.own_id j t);
        below = λ j t h. ground (arith, txn_of-put m id j txn, s.below j t);
        apart = λ j h.
            ground (arith, s.apart j, s.committed_below j, contains-append j id m.active_txns);
        committed_below = λ j h. omega (arith, s.committed_below j h);
      }

  do_abort-IsSound :
      (m : Manager K D) (id : ℕ) (txn : Transaction K)
      → IsSound m
      → txn_of m id ≡ some txn
      → IsSound (do_abort id txn m)
  unfolding do_abort
  do_abort-IsSound m id txn s h =
      ended-IsSound m s id txn (record txn { state = aborted }) h refl (rollback id m.versions)
        m.committed_txns (add_id id m.aborted_txns) (λ e. cc) (λ j c. inl c)

  pub abort_transaction-IsSound :
      (id : ℕ) (m : Manager K D) → IsSound m → IsSound (abort_transaction id m)
  unfolding abort_transaction
  abort_transaction-IsSound id m s = elim (Option-cases (txn_of m id)) [
    | inl e ↦ rw (e, abort_transaction) s
    | inr (txn, e) ↦ rw (e, abort_transaction) (do_abort-IsSound m id txn s e)
  ]

module _ {K D : Type 0} where
  -- A transaction gets an id that is neither active nor committed nor that of an earlier
  -- transaction; its snapshot has exactly the transactions committed before it, none of which
  -- is active in the snapshot.
  pub begin_fresh :
      (isolation : IsolationLevel) (now : ℕ) (m : Manager K D)
      → IsSound m
      → (contains m.next_txn_id m.active_txns ≡ false)
        × (contains m.next_txn_id m.committed_txns ≡ false)
        × (txn_of m m.next_txn_id ≡ none)
        × (txn_of (begin_transaction isolation now m).0 (begin_transaction isolation now m).1
            ≡ some (new_txn isolation now m))
        × ((x : ℕ)
            → is_committed (new_txn isolation now m).snapshot x ≡ contains x m.committed_txns)
        × ((x : ℕ)
            → is_committed (new_txn isolation now m).snapshot x ≡ true
            → contains x (new_txn isolation now m).snapshot.active_txns ≡ false)
  unfolding begin_transaction new_txn is_committed set_committed
  begin_fresh isolation now m s =
      let (a, c) = unused_id m s in
      (
        a,
        c,
        unused_txn m s,
        get-put_self ℕ_discrete m.txns m.next_txn_id _,
        λ x. refl,
        λ x h. s.apart x h,
      )
