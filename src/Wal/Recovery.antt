-- ===== src/Wal/Recovery.antt =====
-- What the analysis of a log finds, transaction by transaction.
use solidity_course_blockcha.Prelude.{
  ℕ, ◌≡◌, refl, ap, ap₂, sym, ◌∙◌, inl, inr, Bool, true, false, ◌&&◌, ◌||◌, Option, none, some,
  List, [], ◌∷◌, ◌++◌, arith, ◌==◌, ==-true→eq, ==-false→ne, Bool-cases, Option-cases,
  if◌then◌else◌, contains, ℕ_discrete,
}
use solidity_course_blockcha.Prelude.Dict.{
  get, put, pop, get-put_self, get-put_ne, get-pop_self, get-pop_ne,
}
use solidity_course_blockcha.Wal.Record.{
  LogRecordType, begin, commit, abort, insert, delete, update, checkpoint, clr, end,
  record_type_code, LogRecord,
}
use solidity_course_blockcha.Wal.Manager.{
  add, Analysis, append_change, analyse_record, analyse_step, analyse, abort_active, outcome,
}

-- The log has a record of the type for the transaction.
abbrev pub is_logged : LogRecordType → ℕ → List LogRecord → Bool
is_logged kind t [] = false
is_logged kind t (r ∷ rs) =
    ((record_type_code r.record_type == record_type_code kind) && (r.txn_id == t))
    || is_logged kind t rs

-- Whether a transaction is open after a record of its own.
abbrev after_type : LogRecordType → Bool → Bool
after_type begin running = true
after_type commit running = false
after_type abort running = false
after_type insert running = running
after_type delete running = running
after_type update running = running
after_type checkpoint running = running
after_type clr running = running
after_type end running = running

-- The last record that begins, commits or aborts the transaction begins it.
abbrev pub is_left_open : Bool → ℕ → List LogRecord → Bool
is_left_open running t [] = running
is_left_open running t (r ∷ rs) =
    is_left_open (if r.txn_id == t then after_type r.record_type running else running) t rs

module _ {V : Type 0} where
  abbrev is_given : Option V → Bool
  is_given none = false
  is_given (some v) = true

  abbrev has_key : List (ℕ × V) → ℕ → Bool
  has_key d t = is_given (get ℕ_discrete d t)

  has_key-put :
      (d : List (ℕ × V)) (k t : ℕ) (v : V)
      → has_key (put ℕ_discrete d k v) t ≡ (if k == t then true else has_key d t)
  has_key-put d k t v = elim (Bool-cases (k == t)) [
    | inl e ↦
        ap is_given (
          ap (get ℕ_discrete (put ℕ_discrete d k v)) (sym (==-true→eq k t e))
          ∙ get-put_self ℕ_discrete d k v)
        ∙ rw e refl
    | inr e ↦ ap is_given (get-put_ne ℕ_discrete d k t v (==-false→ne k t e)) ∙ rw e refl
  ]

  has_key-pop :
      (d : List (ℕ × V)) (k t : ℕ)
      → has_key (pop ℕ_discrete d k) t ≡ (if k == t then false else has_key d t)
  has_key-pop d k t = elim (Bool-cases (k == t)) [
    | inl e ↦
        ap is_given (
          ap (get ℕ_discrete (pop ℕ_discrete d k)) (sym (==-true→eq k t e))
          ∙ get-pop_self ℕ_discrete d k)
        ∙ rw e refl
    | inr e ↦ ap is_given (get-pop_ne ℕ_discrete d k t (==-false→ne k t e)) ∙ rw e refl
  ]

has_key_cons :
    {V : Type 0} (d : List (ℕ × V)) (k t : ℕ) (v : V)
    → has_key ((k, v) ∷ d) t ≡ ((k == t) || has_key d t)
unfolding get
has_key_cons d k t v = elim (ℕ_discrete k t) [ yes e ↦ ground arith | no ne ↦ ground arith ]

contains-append_one :
    (t s : ℕ) (xs : List ℕ) → contains t (xs ++ s ∷ []) ≡ (contains t xs || (s == t))
contains-append_one t s [] = ground arith
contains-append_one t s (x ∷ xs) = ground (arith, contains-append_one t s xs)

contains-add : (t s : ℕ) (xs : List ℕ) → contains t (add s xs) ≡ (contains t xs || (s == t))
contains-add t s xs = ground (arith, contains-append_one t s xs)

module _ (t : ℕ) where
  abbrev same : LogRecord → Bool
  same r = r.txn_id == t

  committed_step :
      (a : Analysis) (r : LogRecord)
      → contains t (analyse_step a r).committed ≡ (
          contains t a.committed
          || ((record_type_code r.record_type == record_type_code commit) && same r))
  unfolding analyse_step
  committed_step a r = by_type r.record_type
    where
      by_type :
          (kind : LogRecordType)
          → contains t (analyse_record kind r a).committed
            ≡ (contains t a.committed || ((record_type_code kind == 2) && same r))
      by_type begin = ground arith
      by_type commit = contains-add t r.txn_id a.committed
      by_type abort = ground arith
      by_type insert = ground arith
      by_type delete = ground arith
      by_type update = ground arith
      by_type checkpoint = ground arith
      by_type clr = ground arith
      by_type end = ground arith

  aborted_step :
      (a : Analysis) (r : LogRecord)
      → contains t (analyse_step a r).aborted ≡ (
          contains t a.aborted
          || ((record_type_code r.record_type == record_type_code abort) && same r))
  unfolding analyse_step
  aborted_step a r = by_type r.record_type
    where
      by_type :
          (kind : LogRecordType)
          → contains t (analyse_record kind r a).aborted
            ≡ (contains t a.aborted || ((record_type_code kind == 3) && same r))
      by_type begin = ground arith
      by_type commit = ground arith
      by_type abort = contains-add t r.txn_id a.aborted
      by_type insert = ground arith
      by_type delete = ground arith
      by_type update = ground arith
      by_type checkpoint = ground arith
      by_type clr = ground arith
      by_type end = ground arith

  change_keeps :
      (a : Analysis) (r : LogRecord)
      → has_key (append_change r a).active_txns t ≡ has_key a.active_txns t
  change_keeps a r = elim (Option-cases (get ℕ_discrete a.active_txns r.txn_id)) [
    | inl e ↦ rw (e, append_change) refl
    | inr (rs, e) ↦
        rw (e, append_change)
          (has_key-put a.active_txns r.txn_id t (rs ++ r ∷ []) ∙ elim (Bool-cases (r.txn_id == t)) [
            | inl c ↦ rw c (
                sym (
                  ap is_given
                    (ap (get ℕ_discrete a.active_txns) (sym (==-true→eq r.txn_id t c)) ∙ e)))
            | inr c ↦ rw c refl
          ])
  ]

  active_step :
      (a : Analysis) (r : LogRecord)
      → has_key (analyse_step a r).active_txns t ≡ (
          if same r
          then after_type r.record_type (has_key a.active_txns t)
          else has_key a.active_txns t)
  unfolding analyse_step
  active_step a r = by_type r.record_type
    where
      unchanged : (b : Bool) → b ≡ (if same r then b else b)
      unchanged b = ground arith

      by_type :
          (kind : LogRecordType)
          → has_key (analyse_record kind r a).active_txns t ≡ (
              if same r then after_type kind (has_key a.active_txns t) else has_key a.active_txns t)
      by_type begin = has_key-put a.active_txns r.txn_id t []
      by_type commit = has_key-pop a.active_txns r.txn_id t
      by_type abort = has_key-pop a.active_txns r.txn_id t
      by_type insert = change_keeps a r ∙ unchanged _
      by_type delete = change_keeps a r ∙ unchanged _
      by_type update = change_keeps a r ∙ unchanged _
      by_type checkpoint = unchanged _
      by_type clr = unchanged _
      by_type end = unchanged _

  or_assoc : (a b c : Bool) → ((a || b) || c) ≡ (a || (b || c))
  or_assoc true b c = refl
  or_assoc false b c = refl

  analyse-committed :
      (a : Analysis) (rs : List LogRecord)
      → contains t (analyse a rs).committed ≡ (contains t a.committed || is_logged commit t rs)
  unfolding analyse
  analyse-committed a [] = ground arith
  analyse-committed a (r ∷ rs) =
      analyse-committed (analyse_step a r) rs
      ∙ ap (λ (b : Bool). b || is_logged commit t rs) (committed_step a r)
      ∙ or_assoc (contains t a.committed)
          ((record_type_code r.record_type == record_type_code commit) && same r)
          (is_logged commit t rs)

  analyse-aborted :
      (a : Analysis) (rs : List LogRecord)
      → contains t (analyse a rs).aborted ≡ (contains t a.aborted || is_logged abort t rs)
  unfolding analyse
  analyse-aborted a [] = ground arith
  analyse-aborted a (r ∷ rs) =
      analyse-aborted (analyse_step a r) rs
      ∙ ap (λ (b : Bool). b || is_logged abort t rs) (aborted_step a r)
      ∙ or_assoc (contains t a.aborted)
          ((record_type_code r.record_type == record_type_code abort) && same r)
          (is_logged abort t rs)

  analyse-active :
      (a : Analysis) (rs : List LogRecord)
      → has_key (analyse a rs).active_txns t ≡ is_left_open (has_key a.active_txns t) t rs
  unfolding analyse
  analyse-active a [] = refl
  analyse-active a (r ∷ rs) =
      analyse-active (analyse_step a r) rs
      ∙ ap (λ (b : Bool). is_left_open b t rs) (active_step a r)

  contains-abort_active :
      (d : List (ℕ × List LogRecord)) (s : List ℕ)
      → contains t (abort_active d s) ≡ (contains t s || has_key d t)
  unfolding abort_active get
  contains-abort_active [] s = ground arith
  contains-abort_active ((k, rs) ∷ d) s =
      contains-abort_active d (add k s)
      ∙ ap (λ (b : Bool). b || has_key d t) (contains-add t k s)
      ∙ or_assoc (contains t s) (k == t) (has_key d t)
      ∙ ap (λ (b : Bool). contains t s || b) (sym (has_key_cons d k t rs))

-- A transaction is found committed when the log has a commit record for it, and found aborted when
-- the log has an abort record for it or the last record that begins, commits or aborts it begins it.
pub outcome_lem :
    (rs : List LogRecord) (t : ℕ)
    → (contains t (outcome rs).0 ≡ is_logged commit t rs)
      × (contains t (outcome rs).1 ≡ (is_logged abort t rs || is_left_open false t rs))
unfolding outcome get
outcome_lem rs t =
    let start : Analysis = record { active_txns = []; committed = []; aborted = [] } in
    (
      analyse-committed t start rs,
      contains-abort_active t (analyse start rs).active_txns (analyse start rs).aborted
          ∙ ap₂ (λ (a b : Bool). a || b) (analyse-aborted t start rs) (analyse-active t start rs),
    )
