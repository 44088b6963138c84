-- ===== src/Mvcc/Collect.antt =====
-- pysql/mvcc.py: the collection of old versions, and the manager's statistics.
use solidity_course_blockcha.Prelude.{
  ℕ, ◌+◌, Bool, true, false, not, ◌&&◌, String, List, [], ◌∷◌, ltb, ◌==◌, if◌then◌else◌, contains,
  length,
}
use solidity_course_blockcha.Mvcc.Version.{VersionRecord}
use solidity_course_blockcha.Mvcc.Manager.{Manager, min_or}

-- The versions behind the newest one, cut after the first that is surely dead; and whether one was.
unfoldable pub trim :
    {D : Type 0} → ℕ → List ℕ → List (VersionRecord D) → List (VersionRecord D) × Bool
trim least done [] = ([], false)
trim least done (v ∷ []) = (v ∷ [], false)
trim least done (v ∷ w ∷ older) =
    let (rest, cut) = trim least done (w ∷ older) in
    if not (v.xmax == 0) && ltb v.xmax least && contains v.xmax done
    then (v ∷ [], true)
    else (v ∷ rest, cut)

abbrev pub trim_chain :
    {D : Type 0} → ℕ → List ℕ → List (VersionRecord D) → List (VersionRecord D) × Bool
trim_chain least done [] = ([], false)
trim_chain least done (v ∷ older) = let (rest, cut) = trim least done older in (v ∷ rest, cut)

unfoldable pub collect_table :
    {K D : Type 0}
    → ℕ
    → List ℕ
    → List (K × List (VersionRecord D))
    → List (K × List (VersionRecord D)) × ℕ
collect_table least done [] = ([], 0)
collect_table least done ((key, chain) ∷ rest) =
    let (chain', cut) = trim_chain least done chain in
    let (rest', n) = collect_table least done rest in
    ((key, chain') ∷ rest', (if cut then 1 else 0) + n)

unfoldable pub collect :
    {K D : Type 0}
    → ℕ
    → List ℕ
    → List (String × List (K × List (VersionRecord D)))
    → List (String × List (K × List (VersionRecord D))) × ℕ
collect least done [] = ([], 0)
collect least done ((table, chains) ∷ rest) =
    let (chains', n) = collect_table least done chains in
    let (rest', k) = collect least done rest in ((table, chains') ∷ rest', n + k)

unfoldable pub garbage_collect : {K D : Type 0} → Manager K D → Manager K D × ℕ
garbage_collect m =
    let (versions', n) = collect (min_or m.next_txn_id m.active_txns) m.committed_txns m.versions in
    (record m { versions = versions' }, n)

pub record Stats : Type 0 where
  pub active_transactions : ℕ
  pub committed_transactions : ℕ
  pub aborted_transactions : ℕ
  pub total_versions : ℕ
  pub tables_with_versions : ℕ

abbrev pub count_chains : {K D : Type 0} → List (K × List (VersionRecord D)) → ℕ
count_chains [] = 0
count_chains ((key, chain) ∷ rest) = length chain + count_chains rest

abbrev pub count_versions : {K D : Type 0} → List (String × List (K × List (VersionRecord D))) → ℕ
count_versions [] = 0
count_versions ((table, chains) ∷ rest) = count_chains chains + count_versions rest

unfoldable pub get_stats : {K D : Type 0} → Manager K D → Stats
get_stats m = record {
  active_transactions = length m.active_txns;
  committed_transactions = length m.committed_txns;
  aborted_transactions = length m.aborted_txns;
  total_versions = count_versions m.versions;
  tables_with_versions = length m.versions;
}
