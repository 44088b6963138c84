-- ===== src/Mvcc/Store.antt =====
-- pysql/mvcc.py: the versions of the records: writes, reads and deletes of a transaction.
use solidity_course_blockcha.Prelude.{
  ℕ, Bool, true, false, not, ◌&&◌, String, string_discrete, Option, none, some, List, [], ◌∷◌, ◌==◌,
  if◌then◌else◌, contains,
}
use solidity_course_blockcha.Prelude.Dict
use solidity_course_blockcha.Mvcc.Version.{
  VersionRecord, TransactionSnapshot, Transaction, is_visible_to,
}
use solidity_course_blockcha.Mvcc.Manager.{Manager, chain_of, txn_of, put_txn, add_write, add_read}

module _ {K D : Type 0} (dec : Discrete K) where
  abbrev pub table_of : Manager K D → String → List (K × List (VersionRecord D))
  table_of m table = chain_of (Dict.get string_discrete m.versions table)

  -- the newest version of a record, with the older ones behind it
  abbrev pub versions_of : Manager K D → String → K → List (VersionRecord D)
  versions_of m table key = chain_of (Dict.get dec (table_of m table) key)

  abbrev pub put_versions :
      Manager K D
      → String
      → K
      → List (VersionRecord D)
      → List (String × List (K × List (VersionRecord D)))
  put_versions m table key chain =
      Dict.put string_discrete m.versions table (Dict.put dec (table_of m table) key chain)

  -- Another active transaction has marked the version as deleted or superseded.
  unfoldable pub is_locked : List ℕ → ℕ → VersionRecord D → Bool
  is_locked active_txns id v =
      not (v.xmax == 0) && not (v.xmax == id) && contains v.xmax active_txns

  abbrev pub new_version : ℕ → ℕ → D → VersionRecord D
  new_version now id values = record { values = values; xmin = id; xmax = 0; created_at = now }

  unfoldable pub store_version :
      ℕ → Transaction K → String → K → List (VersionRecord D) → Manager K D → Manager K D × Bool
  store_version id txn table key chain m = (
    record m {
      versions = put_versions m table key chain;
      txns = put_txn m id (add_write dec table key txn);
    },
    true,
  )

  unfoldable pub write_version : ℕ → ℕ → String → K → D → Manager K D → Manager K D × Bool
  write_version now id table key values m = elim (txn_of m id) [
    | none ↦ (m, false)
    | some txn ↦ elim (versions_of m table key) [
      | [] ↦ store_version id txn table key (new_version now id values ∷ []) m
      | old ∷ older ↦
          if is_locked m.active_txns id old
          then (m, false)
          else store_version id txn table key
              (new_version now id values ∷ record old { xmax = id } ∷ older) m
    ]
  ]

  -- the first version of the chain that the transaction sees
  unfoldable pub find_visible :
      ℕ → TransactionSnapshot → List (VersionRecord D) → Option (VersionRecord D)
  find_visible id s [] = none
  find_visible id s (v ∷ older) = if is_visible_to v id s then some v else find_visible id s older

  unfoldable pub read_version : ℕ → String → K → Manager K D → Manager K D × Option D
  read_version id table key m = elim (txn_of m id) [
    | none ↦ (m, none)
    | some txn ↦ elim (find_visible id txn.snapshot (versions_of m table key)) [
      | none ↦ (m, none)
      | some v ↦ (record m { txns = put_txn m id (add_read dec table key txn) }, some v.values)
    ]
  ]

  unfoldable pub delete_version : ℕ → String → K → Manager K D → Manager K D × Bool
  delete_version id table key m = elim (txn_of m id) [
    | none ↦ (m, false)
    | some txn ↦ elim (versions_of m table key) [
      | [] ↦ (m, false)
      | v ∷ older ↦
          if is_locked m.active_txns id v
          then (m, false)
          else store_version id txn table key (record v { xmax = id } ∷ older) m
    ]
  ]
