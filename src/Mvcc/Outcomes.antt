-- ===== src/Mvcc/Outcomes.antt =====
-- What a write and a delete do to the versions of the records, branch by branch.
use solidity_course_blockcha.Prelude.{
  ℕ, ◌≡◌, ◌⊎◌, ◌≢◌, refl, inl, inr, none, some, List, [], ◌∷◌, String, string_discrete,
  Option-cases, Bool-cases, Bool, true, false,
}
use solidity_course_blockcha.Prelude.Dict.{get-put_self, get-put_ne}
use solidity_course_blockcha.Mvcc.Version.{VersionRecord, Transaction}
use solidity_course_blockcha.Mvcc.Manager.{Manager, txn_of}
use solidity_course_blockcha.Mvcc.Store.{
  versions_of, is_locked, new_version, store_version, write_version, delete_version,
}

module _ {K D : Type 0} (dec : Discrete K) where
  -- The versions of a record after the versions of one record are stored.
  pub versions_of-store_self :
      (id : ℕ) (txn : Transaction K) (table : String) (key : K) (chain : List (VersionRecord D))
      (m : Manager K D)
      → versions_of dec (store_version dec id txn table key chain m).0 table key ≡ chain
  unfolding store_version
  versions_of-store_self id txn table key chain m = rw get-put_self (rw get-put_self refl)

  pub versions_of-store_ne :
      (id : ℕ) (txn : Transaction K) (table table' : String) (key key' : K)
      (chain : List (VersionRecord D)) (m : Manager K D)
      → (table ≢ table') ⊎ (key ≢ key')
      → versions_of dec (store_version dec id txn table key chain m).0 table' key'
        ≡ versions_of dec m table' key'
  unfolding store_version
  versions_of-store_ne id txn table table' key key' chain m (inl t) = rw (get-put_ne, t) refl
  versions_of-store_ne id txn table table' key key' chain m (inr k) =
      elim (string_discrete table table') [
        | yes t ↦ rw (← t) (rw get-put_self (rw (get-put_ne, k) refl))
        | no t ↦ rw (get-put_ne, t) refl
      ]

  List-cases :
      (xs : List (VersionRecord D))
      → (xs ≡ []) ⊎ ((v : VersionRecord D) × (older : List (VersionRecord D)) × (xs ≡ v ∷ older))
  List-cases [] = inl refl
  List-cases (v ∷ older) = inr (v, older, refl)

  -- What a write may do.
  pub data Wrote (now id : ℕ) (table : String) (key : K) (values : D) (m : Manager K D)
      : Manager K D × Bool → Type 0 where
    unknown : txn_of m id ≡ none → Wrote now id table key values m (m, false)
    refused :
        (v : VersionRecord D) (older : List (VersionRecord D))
        → versions_of dec m table key ≡ v ∷ older
        → is_locked dec m.active_txns id v ≡ true
        → Wrote now id table key values m (m, false)
    created :
        (txn : Transaction K)
        → txn_of m id ≡ some txn
        → versions_of dec m table key ≡ []
        → Wrote now id table key values m
            (store_version dec id txn table key (new_version dec now id values ∷ []) m)
    updated :
        (txn : Transaction K) (v : VersionRecord D) (older : List (VersionRecord D))
        → txn_of m id ≡ some txn
        → versions_of dec m table key ≡ v ∷ older
        → is_locked dec m.active_txns id v ≡ false
        → Wrote now id table key values m (
            store_version dec id txn table key
              (new_version dec now id values ∷ record v { xmax = id } ∷ older)
              m)

  pub write_version-Wrote :
      (now id : ℕ) (table : String) (key : K) (values : D) (m : Manager K D)
      → Wrote now id table key values m (write_version dec now id table key values m)
  unfolding write_version
  write_version-Wrote now id table key values m = elim (Option-cases (txn_of m id)) [
    | inl e ↦ rw (e, write_version) (unknown e)
    | inr (txn, e) ↦ elim (List-cases (versions_of dec m table key)) [
      | inl c ↦ rw (e, c, write_version) (created txn e c)
      | inr (v, older, c) ↦ elim (Bool-cases (is_locked dec m.active_txns id v)) [
        | inl b ↦ rw (e, c, write_version) (rw b (refused v older c b))
        | inr b ↦ rw (e, c, write_version) (rw b (updated txn v older e c b))
      ]
    ]
  ]

  -- What a delete may do.
  pub data Deleted (id : ℕ) (table : String) (key : K) (m : Manager K D)
      : Manager K D × Bool → Type 0 where
    unknown : txn_of m id ≡ none → Deleted id table key m (m, false)
    absent : versions_of dec m table key ≡ [] → Deleted id table key m (m, false)
    refused :
        (v : VersionRecord D) (older : List (VersionRecord D))
        → versions_of dec m table key ≡ v ∷ older
        → is_locked dec m.active_txns id v ≡ true
        → Deleted id table key m (m, false)
    marked :
        (txn : Transaction K) (v : VersionRecord D) (older : List (VersionRecord D))
        → txn_of m id ≡ some txn
        → versions_of dec m table key ≡ v ∷ older
        → is_locked dec m.active_txns id v ≡ false
        → Deleted id table key m
            (store_version dec id txn table key (record v { xmax = id } ∷ older) m)

  pub delete_version-Deleted :
      (id : ℕ) (table : String) (key : K) (m : Manager K D)
      → Deleted id table key m (delete_version dec id table key m)
  unfolding delete_version
  delete_version-Deleted id table key m = elim (Option-cases (txn_of m id)) [
    | inl e ↦ rw (e, delete_version) (unknown e)
    | inr (txn, e) ↦ elim (List-cases (versions_of dec m table key)) [
      | inl c ↦ rw (e, c, delete_version) (absent c)
      | inr (v, older, c) ↦ elim (Bool-cases (is_locked dec m.active_txns id v)) [
        | inl b ↦ rw (e, c, delete_version) (rw b (refused v older c b))
        | inr b ↦ rw (e, c, delete_version) (rw b (marked txn v older e c b))
      ]
    ]
  ]
