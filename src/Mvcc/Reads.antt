-- ===== src/Mvcc/Reads.antt =====
-- What a transaction reads while others write.
use solidity_course_blockcha.Prelude.{
  ℕ, ◌<◌, ◌≡◌, ◌⊎◌, ◌≢◌, refl, sym, ◌∙◌, inl, inr, some, List, [], ◌∷◌, arith, String,
  string_discrete, ℕ_discrete, Bool, true, false,
}
use mathlib.Core.Option
use solidity_course_blockcha.Prelude.Dict.{get-put_self, get-put_ne}
use solidity_course_blockcha.Mvcc.Version.{
  VersionRecord, TransactionSnapshot, Transaction, is_visible_to, is_committed,
}
use solidity_course_blockcha.Mvcc.Manager.{Manager, txn_of, add_write}
use solidity_course_blockcha.Mvcc.Store.{
  versions_of, new_version, store_version, write_version, find_visible, read_version,
  delete_version,
}
use solidity_course_blockcha.Mvcc.Outcomes.{
  versions_of-store_self, versions_of-store_ne, Wrote, created, updated, write_version-Wrote,
  Deleted, absent, marked, delete_version-Deleted,
}

module _ {K D : Type 0} (dec : Discrete K) where
  -- What a read returns: the newest version that the transaction sees.
  read_lem :
      (id : ℕ) (table : String) (key : K) (m : Manager K D) (txn : Transaction K)
      → txn_of m id ≡ some txn
      → (read_version dec id table key m).1
        ≡ Option.map
            (λ v. v.values)
            (find_visible dec id txn.snapshot (versions_of dec m table key))
  unfolding read_version
  read_lem id table key m txn h = rw (h, read_version) (ground arith)

  -- What a write or a delete by `id` leaves to others: the object of every other transaction.
  abbrev pub written :
      ℕ → Transaction K → String → K → List (VersionRecord D) → Manager K D → Manager K D
  written id txn table key chain m = (store_version dec id txn table key chain m).0

  txn_of-written :
      (id other : ℕ) (txn : Transaction K) (table : String) (key : K)
      (chain : List (VersionRecord D)) (m : Manager K D)
      → id ≢ other
      → txn_of (written id txn table key chain m) other ≡ txn_of m other
  unfolding store_version
  txn_of-written id other txn table key chain m h =
      get-put_ne ℕ_discrete m.txns id other (add_write dec table key txn) h

  -- For a reader the marks of a writer that it does not see are none.
  module _ (id writer : ℕ) (s : TransactionSnapshot) (pos : 0 < id) (other : writer ≢ id)
      (unseen : is_committed s writer ≡ false) where
    new_unseen : (v : VersionRecord D) → v.xmin ≡ writer → is_visible_to v id s ≡ false
    unfolding is_visible_to
    new_unseen v h = ground arith

    mark_unseen :
        (v : VersionRecord D)
        → (v.xmax ≡ 0) ⊎ ((v.xmax ≢ id) × (is_committed s v.xmax ≡ false))
        → is_visible_to (record v { xmax = writer }) id s ≡ is_visible_to v id s
    unfolding is_visible_to
    mark_unseen v h = ground arith

    write_unseen :
        (v old : VersionRecord D) (older : List (VersionRecord D))
        → v.xmin ≡ writer
        → (old.xmax ≡ 0) ⊎ ((old.xmax ≢ id) × (is_committed s old.xmax ≡ false))
        → Option.map
            (λ (w : VersionRecord D). w.values)
            (find_visible dec id s (v ∷ record old { xmax = writer } ∷ older))
          ≡ Option.map (λ (w : VersionRecord D). w.values) (find_visible dec id s (old ∷ older))
    unfolding find_visible
    write_unseen v old older h k = ground (arith, new_unseen v h, mark_unseen old k)

    create_unseen :
        (v : VersionRecord D)
        → v.xmin ≡ writer
        → Option.map (λ (w : VersionRecord D). w.values) (find_visible dec id s (v ∷ []))
          ≡ Option.map (λ (w : VersionRecord D). w.values) (find_visible {D = D} dec id s [])
    unfolding find_visible
    create_unseen v h = ground (arith, new_unseen v h)

    delete_unseen :
        (old : VersionRecord D) (older : List (VersionRecord D))
        → (old.xmax ≡ 0) ⊎ ((old.xmax ≢ id) × (is_committed s old.xmax ≡ false))
        → Option.map
            (λ (w : VersionRecord D). w.values)
            (find_visible dec id s (record old { xmax = writer } ∷ older))
          ≡ Option.map (λ (w : VersionRecord D). w.values) (find_visible dec id s (old ∷ older))
    unfolding find_visible
    delete_unseen old older k = ground (arith, mark_unseen old k)

  -- The newest version of the record is not deleted as far as the reader can see.
  abbrev pub HeadLive : List (VersionRecord D) → ℕ → TransactionSnapshot → Type 0
  HeadLive [] id s = Unit {0}
  HeadLive (v ∷ older) id s = (v.xmax ≡ 0) ⊎ ((v.xmax ≢ id) × (is_committed s v.xmax ≡ false))

  read-cong :
      (reader : ℕ) (table : String) (key : K) (m m' : Manager K D) (txn : Transaction K)
      → txn_of m reader ≡ some txn
      → txn_of m' reader ≡ some txn
      → Option.map
          (λ (w : VersionRecord D). w.values)
          (find_visible dec reader txn.snapshot (versions_of dec m' table key))
        ≡ Option.map
            (λ (w : VersionRecord D). w.values)
            (find_visible dec reader txn.snapshot (versions_of dec m table key))
      → (read_version dec reader table key m').1 ≡ (read_version dec reader table key m).1
  read-cong reader table key m m' txn h h' e =
      read_lem reader table key m' txn h' ∙ e ∙ sym (read_lem reader table key m txn h)

  module _ (reader writer : ℕ) (reading : Transaction K) (m : Manager K D) (pos : 0 < reader)
      (other : writer ≢ reader) (begun : txn_of m reader ≡ some reading)
      (unseen : is_committed reading.snapshot writer ≡ false) (table : String) (key : K)
      (live : HeadLive (versions_of dec m table key) reader reading.snapshot) where
    -- A change of the record's versions that the reader does not see, read at any record.
    read-stored :
        (txn : Transaction K) (chain : List (VersionRecord D)) (table' : String) (key' : K)
        → Option.map
            (λ (w : VersionRecord D). w.values)
            (find_visible dec reader reading.snapshot chain)
          ≡ Option.map
              (λ (w : VersionRecord D). w.values)
              (find_visible dec reader reading.snapshot (versions_of dec m table key))
        → (read_version dec reader table' key' (written writer txn table key chain m)).1
          ≡ (read_version dec reader table' key' m).1
    read-stored txn chain table' key' e =
        let kept = txn_of-written writer reader txn table key chain m other ∙ begun in
        elim (string_discrete table table') [
          | no t ↦
              read-cong reader table' key' m _ reading begun kept (
                rw (versions_of-store_ne dec writer txn table table' key key' chain m (inl t)) refl)
          | yes t ↦ elim (dec key key') [
            | no k ↦ read-cong reader table' key' m _ reading begun kept (
                rw (versions_of-store_ne dec writer txn table table' key key' chain m (inr k)) refl)
            | yes k ↦
                rw (← t, ← k)
                  (read-cong reader table key m _ reading begun kept
                    (rw (versions_of-store_self dec writer txn table key chain m) e))
          ]
        ]

    read-Wrote :
        (now : ℕ) (values : D) (table' : String) (key' : K) {r : Manager K D × Bool}
        → Wrote dec now writer table key values m r
        → (read_version dec reader table' key' r.0).1 ≡ (read_version dec reader table' key' m).1
    read-Wrote now values table' key' (Wrote.unknown h) = refl
    read-Wrote now values table' key' (Wrote.refused v older c b) = refl
    read-Wrote now values table' key' (created txn h c) =
        read-stored txn _ table' key'
          (rw c (create_unseen reader writer reading.snapshot pos other unseen _ refl))
    read-Wrote now values table' key' (updated txn v older h c b) = read-stored txn _ table' key' (
        rw c (
          write_unseen reader writer reading.snapshot pos other unseen _ v older refl
            (rw c at live)))

    read-Deleted :
        (table' : String) (key' : K) {r : Manager K D × Bool}
        → Deleted dec writer table key m r
        → (read_version dec reader table' key' r.0).1 ≡ (read_version dec reader table' key' m).1
    read-Deleted table' key' (Deleted.unknown h) = refl
    read-Deleted table' key' (absent c) = refl
    read-Deleted table' key' (Deleted.refused v older c b) = refl
    read-Deleted table' key' (marked txn v older h c b) = read-stored txn _ table' key' (
        rw c (delete_unseen reader writer reading.snapshot pos other unseen v older (rw c at live)))

    -- What a transaction reads, of any record, does not change when another transaction, which had
    -- not committed at the reader's start, writes a record, unless the reader sees the newest
    -- version of that record as deleted.
    pub read-write_version :
        (now : ℕ) (values : D) (table' : String) (key' : K)
        → (read_version dec reader table' key'
            (write_version dec now writer table key values m).0).1
          ≡ (read_version dec reader table' key' m).1
    read-write_version now values table' key' =
        read-Wrote now values table' key' (write_version-Wrote dec now writer table key values m)

    -- The same for a delete by such a transaction.
    pub read-delete_version :
        (table' : String) (key' : K)
        → (read_version dec reader table' key' (delete_version dec writer table key m).0).1
          ≡ (read_version dec reader table' key' m).1
    read-delete_version table' key' =
        read-Deleted table' key' (delete_version-Deleted dec writer table key m)

  own_visible :
      (id now : ℕ) (values : D) (s : TransactionSnapshot)
      → 0 < id
      → is_visible_to (new_version dec now id values) id s ≡ true
  unfolding is_visible_to
  own_visible id now values s pos = ground arith

  own_read :
      (id now : ℕ) (table : String) (key : K) (values : D) (txn : Transaction K)
      (older : List (VersionRecord D)) (m : Manager K D)
      → 0 < id
      → txn_of m id ≡ some txn
      → (read_version dec id table key
          (written id txn table key (new_version dec now id values ∷ older) m)).1
        ≡ some values
  unfolding find_visible store_version add_write
  own_read id now table key values txn older m pos h =
      read_lem id table key _ (add_write dec table key txn) (get-put_self ℕ_discrete m.txns id _)
      ∙ rw (versions_of-store_self dec id txn table key (new_version dec now id values ∷ older) m)
          (rw (own_visible id now values txn.snapshot pos) refl)

  own-Wrote :
      (id now : ℕ) (table : String) (key : K) (values : D) (m : Manager K D)
      {r : Manager K D × Bool}
      → 0 < id
      → Wrote dec now id table key values m r
      → r.1 ≡ true
      → (read_version dec id table key r.0).1 ≡ some values
  unfolding store_version
  own-Wrote id now table key values m pos (Wrote.unknown h) t = cc
  own-Wrote id now table key values m pos (Wrote.refused v older c b) t = cc
  own-Wrote id now table key values m pos (created txn h c) t =
      own_read id now table key values txn [] m pos h
  own-Wrote id now table key values m pos (updated txn v older h c b) t =
      own_read id now table key values txn (record v { xmax = id } ∷ older) m pos h

  -- A transaction reads back what it has written: when its write is accepted, its next read of the
  -- record gives the values written.
  pub read_own_write :
      (id now : ℕ) (table : String) (key : K) (values : D) (m : Manager K D)
      → 0 < id
      → (write_version dec now id table key values m).1 ≡ true
      → (read_version dec id table key (write_version dec now id table key values m).0).1
        ≡ some values
  read_own_write id now table key values m pos t =
      own-Wrote id now table key values m pos (write_version-Wrote dec now id table key values m) t
