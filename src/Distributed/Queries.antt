-- ===== src/Distributed/Queries.antt =====
-- What a query on all nodes gives, and that each key has a shard.
use solidity_course_blockcha.Prelude.{
  ℕ, ◌≡◌, ◌++◌, refl, ap, sym, ◌∙◌, inl, inr, Option, none, some, List, [], ◌∷◌, String,
  Option-cases, length, get_elem?-some, arith,
}
use native.Mathlib.Nat.{mod-lt}
use solidity_course_blockcha.Distributed.Coordinator.{
  QueryResult, Database, DistributedCoordinator, get_shard, first_schema, gather,
  execute_scatter_gather,
}

none_not {ℓ} : {A : Type ℓ} {a : A} → ¬ (none ≡ some a)
none_not e = cc

module _ {N Row : Type 0} (db : Database N Row) where
  open db use {execute}

  abbrev rows_of : Option (QueryResult Row) → List Row
  rows_of none = []
  rows_of (some r) = r.rows

  -- The rows of all nodes, in their order.
  abbrev pub all_rows : String → List (String × N) → List Row
  all_rows sql [] = []
  all_rows sql ((id, node) ∷ nodes) = rows_of (execute sql node).1 ++ all_rows sql nodes

  append_end : (xs : List Row) → xs ≡ xs ++ []
  append_end [] = refl
  append_end (x ∷ xs) = ap (◌∷◌ x) (append_end xs)

  append_twice : (xs ys zs : List Row) → (xs ++ ys) ++ zs ≡ xs ++ (ys ++ zs)
  append_twice [] ys zs = refl
  append_twice (x ∷ xs) ys zs = ap (◌∷◌ x) (append_twice xs ys zs)

  gather_raised :
      (sql id : String) (node : N) (nodes : List (String × N)) (schema : List String)
      (rows : List Row)
      → (execute sql node).1 ≡ none
      → none ≡ (gather db sql ((id, node) ∷ nodes) schema rows).1
  unfolding gather
  gather_raised sql id node nodes schema rows e = rw (e, gather) refl

  gather_next :
      (sql id : String) (node : N) (nodes : List (String × N)) (schema : List String)
      (rows : List Row) (s : QueryResult Row)
      → (execute sql node).1 ≡ some s
      → (gather db sql nodes (first_schema schema s.columns) (rows ++ s.rows)).1
        ≡ (gather db sql ((id, node) ∷ nodes) schema rows).1
  unfolding gather
  gather_next sql id node nodes schema rows s e = rw (e, gather) refl

  gather_rows :
      (sql : String) (nodes : List (String × N)) (schema : List String) (rows : List Row)
      (r : QueryResult Row)
      → (gather db sql nodes schema rows).1 ≡ some r
      → (r.rows ≡ rows ++ all_rows sql nodes) × (r.affected_rows ≡ length r.rows)
  unfolding gather
  gather_rows sql [] schema rows r h =
      let same : record { columns = schema; rows = rows; affected_rows = length rows; message = "" }
          ≡ r =
        cc in
      (
        ap (λ q. q.rows) (sym same) ∙ append_end rows,
        ap (λ q. q.affected_rows) (sym same) ∙ ap (λ q. length q.rows) same,
      )
  gather_rows sql ((id, node) ∷ nodes) schema rows r h = elim (Option-cases (execute sql node).1) [
    | inl e ↦ absurd (none_not (gather_raised sql id node nodes schema rows e ∙ h))
    | inr (s, e) ↦
        let (all, size) =
          gather_rows sql nodes (first_schema schema s.columns) (rows ++ s.rows) r
            (gather_next sql id node nodes schema rows s e ∙ h) in
        (
          all
              ∙ append_twice rows s.rows _
              ∙ ap (λ x. rows ++ (rows_of x ++ all_rows sql nodes)) (sym e),
          size,
        )
  ]

  -- When no node raises, a query on all nodes gives the rows of the nodes in their order, and counts them.
  pub execute_scatter_gather_rows :
      (sql : String) (c : DistributedCoordinator N) (r : QueryResult Row)
      → (execute_scatter_gather db sql c).1 ≡ some r
      → (r.rows ≡ all_rows sql c.nodes) × (r.affected_rows ≡ length r.rows)
  unfolding execute_scatter_gather
  execute_scatter_gather_rows sql c r h = gather_rows sql c.nodes [] [] r h

-- A partitioner with a shard has one for each key.
pub get_shard_total :
    (hash_val : ℕ) (first : String) (rest : List String)
    → (s : String) × (get_shard hash_val (first ∷ rest) ≡ some s)
unfolding get_shard
get_shard_total hash_val first rest =
    get_elem?-some (first ∷ rest) _ (mod-lt hash_val (omega arith))
