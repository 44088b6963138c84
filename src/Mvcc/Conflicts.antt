-- ===== src/Mvcc/Conflicts.antt =====
-- Which conflicts between writes are detected, and which are not.
use solidity_course_blockcha.Prelude.{
  ℕ, ◌<◌, ◌≡◌, ◌≢◌, refl, some, List, [], ◌∷◌, arith, String, Bool, true, false, contains,
}
use solidity_course_blockcha.Mvcc.Version.{VersionRecord, Transaction}
use solidity_course_blockcha.Mvcc.Manager.{Manager, txn_of}
use solidity_course_blockcha.Mvcc.Store.{
  versions_of, is_locked, new_version, store_version, write_version, delete_version,
}
use solidity_course_blockcha.Mvcc.Outcomes.{
  versions_of-store_self, Wrote, created, updated, write_version-Wrote, Deleted, absent, marked,
  delete_version-Deleted,
}

module _ {K D : Type 0} (dec : Discrete K) where
  -- The head of the record's versions after a write or a delete that is accepted.
  head-Wrote :
      (now id : ℕ) (table : String) (key : K) (values : D) (m : Manager K D)
      {r : Manager K D × Bool}
      → Wrote dec now id table key values m r
      → r.1 ≡ true
      → (older : List (VersionRecord D)) × (versions_of dec r.0 table key
          ≡ new_version dec now id values ∷ older)
  unfolding store_version
  head-Wrote now id table key values m (Wrote.unknown h) t = cc
  head-Wrote now id table key values m (Wrote.refused v older c b) t = cc
  head-Wrote now id table key values m (created txn h c) t =
      ([], versions_of-store_self dec id txn table key _ m)
  head-Wrote now id table key values m (updated txn v older h c b) t =
      (_, versions_of-store_self dec id txn table key _ m)

  accepted :
      (now id : ℕ) (table : String) (key : K) (values : D) (m : Manager K D) (txn : Transaction K)
      (v : VersionRecord D) (older : List (VersionRecord D))
      → txn_of m id ≡ some txn
      → versions_of dec m table key ≡ v ∷ older
      → is_locked dec m.active_txns id v ≡ false
      → (write_version dec now id table key values m).1 ≡ true
  unfolding write_version store_version
  accepted now id table key values m txn v older h c b = rw (h, c, write_version) (rw b refl)

  -- Two transactions write one record: the second write is accepted whatever the state of the first
  -- transaction, so also while it is active.
  pub write_write_accepted :
      (now later id other : ℕ) (table : String) (key : K) (values values' : D) (m : Manager K D)
      (txn : Transaction K)
      → (write_version dec now id table key values m).1 ≡ true
      → txn_of (write_version dec now id table key values m).0 other ≡ some txn
      → (write_version dec later other table key values'
          (write_version dec now id table key values m).0).1
        ≡ true
  unfolding is_locked
  write_write_accepted now later id other table key values values' m txn t h =
      let (older, c) =
        head-Wrote now id table key values m (write_version-Wrote dec now id table key values m)
          t in
      accepted later other table key values' _ txn _ older h c refl

  -- A deleted record is locked: the mark of the delete stays on its newest version.
  head-Deleted :
      (id : ℕ) (table : String) (key : K) (m : Manager K D) {r : Manager K D × Bool}
      → Deleted dec id table key m r
      → r.1 ≡ true
      → (v : VersionRecord D) × (older : List (VersionRecord D)) × (versions_of dec r.0 table key
          ≡ v ∷ older)
        × (v.xmax ≡ id)
        × (r.0.active_txns ≡ m.active_txns)
  unfolding store_version
  head-Deleted id table key m (Deleted.unknown h) t = cc
  head-Deleted id table key m (absent c) t = cc
  head-Deleted id table key m (Deleted.refused v older c b) t = cc
  head-Deleted id table key m (marked txn v older h c b) t =
      (record v { xmax = id }, older, versions_of-store_self dec id txn table key _ m, refl, refl)

  locked_write :
      (now id : ℕ) (table : String) (key : K) (values : D) (m : Manager K D) (txn : Transaction K)
      (v : VersionRecord D) (older : List (VersionRecord D))
      → txn_of m id ≡ some txn
      → versions_of dec m table key ≡ v ∷ older
      → is_locked dec m.active_txns id v ≡ true
      → (write_version dec now id table key values m ≡ (m, false))
        × (delete_version dec id table key m ≡ (m, false))
  unfolding write_version delete_version
  locked_write now id table key values m txn v older h c b =
      (rw (h, c, write_version) (rw b refl), rw (h, c, delete_version) (rw b refl))

  -- A record that an active transaction has deleted is locked for every other transaction: a write
  -- and a delete by it are refused and change nothing.
  pub delete_locks :
      (now id other : ℕ) (table : String) (key : K) (values : D) (m : Manager K D)
      (txn : Transaction K)
      → 0 < id
      → id ≢ other
      → contains id m.active_txns ≡ true
      → (delete_version dec id table key m).1 ≡ true
      → txn_of (delete_version dec id table key m).0 other ≡ some txn
      → (write_version dec now other table key values (delete_version dec id table key m).0
          ≡ ((delete_version dec id table key m).0, false))
        × (delete_version dec other table key (delete_version dec id table key m).0
            ≡ ((delete_version dec id table key m).0, false))
  unfolding is_locked
  delete_locks now id other table key values m txn pos ne act t h =
      let (v, older, c, e, same) =
        head-Deleted id table key m (delete_version-Deleted dec id table key m) t in
      locked_write now other table key values _ txn v older h c (rw (e, same) ground arith)
