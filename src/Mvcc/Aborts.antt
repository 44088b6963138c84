-- ===== src/Mvcc/Aborts.antt =====
-- What an abort undoes: the write of a record, and more where the record had been deleted.
use solidity_course_blockcha.Prelude.{
  ℕ, ◌<◌, ◌≡◌, ◌≢◌, refl, ap, sym, subst, ◌∙◌, none, some, List, [], ◌∷◌, arith, String,
  string_discrete, ℕ_discrete, if_pos, if_neg, Bool, true, false, contains,
}
use solidity_course_blockcha.Prelude.Dict
use solidity_course_blockcha.Prelude.Dict.{get-put_self, get-put_ne}
use solidity_course_blockcha.Mvcc.Version.{
  VersionRecord, TransactionSnapshot, Transaction, is_visible_to, is_committed,
}
use solidity_course_blockcha.Mvcc.Manager.{
  Manager, chain_of, add_write, abort_transaction, do_abort, rollback, rollback_table,
  rollback_chain, keep_chain,
}
use solidity_course_blockcha.Mvcc.Store.{
  table_of, versions_of, put_versions, new_version, store_version, write_version, find_visible,
}
use solidity_course_blockcha.Mvcc.Reads.{written}
use solidity_course_blockcha.Mvcc.Outcomes.{Wrote, created, updated, write_version-Wrote}

module _ {K D : Type 0} (dec : Discrete K) where
  -- No key stands twice, as in a dict.
  abbrev pub Distinct : List (K × List (VersionRecord D)) → Type 0
  Distinct [] = Unit {0}
  Distinct ((key, chain) ∷ rest) = (Dict.get dec rest key ≡ none) × Distinct rest

  pub put-Distinct :
      (d : List (K × List (VersionRecord D))) (key : K) (chain : List (VersionRecord D))
      → Distinct d
      → Distinct (Dict.put dec d key chain)
  unfolding Dict.get Dict.put
  put-Distinct [] key chain h = (refl, tt)
  put-Distinct ((k, c) ∷ d) key chain (h, hs) = elim (dec k key) [
    | yes e ↦ rw (if_pos _ e) (h, hs)
    | no e ↦
        rw (if_neg _ e)
          (get-put_ne dec d key k chain (λ q. e (sym q)) ∙ h, put-Distinct d key chain hs)
  ]

  keep_chain_self :
      (k key : K) (chain : List (VersionRecord D)) (rest : List (K × List (VersionRecord D)))
      → k ≡ key
      → chain_of (Dict.get dec rest key) ≡ []
      → chain_of (Dict.get dec (keep_chain k chain rest) key) ≡ chain
  unfolding Dict.get
  keep_chain_self k key [] rest e h = h
  keep_chain_self k key (v ∷ older) rest e h = rw (if_pos (dec k key) e) refl

  keep_chain_ne :
      (k key : K) (chain : List (VersionRecord D)) (rest : List (K × List (VersionRecord D)))
      → k ≢ key
      → chain_of (Dict.get dec (keep_chain k chain rest) key) ≡ chain_of (Dict.get dec rest key)
  unfolding Dict.get
  keep_chain_ne k key [] rest e = refl
  keep_chain_ne k key (v ∷ older) rest e = rw (if_neg (dec k key) e) refl

  rollback_chain-nil : (id : ℕ) → rollback_chain {D = D} id [] ≡ []
  unfolding rollback_chain
  rollback_chain-nil id = refl

  versions-rollback_table :
      (id : ℕ) (d : List (K × List (VersionRecord D))) (key : K)
      → Distinct d
      → chain_of (Dict.get dec (rollback_table id d) key)
        ≡ rollback_chain id (chain_of (Dict.get dec d key))
  unfolding Dict.get rollback_table
  versions-rollback_table id [] key h = sym (rollback_chain-nil id)
  versions-rollback_table id ((k, c) ∷ d) key (h, hs) =
      let ih = versions-rollback_table id d key hs in
      elim (dec k key) [
        | yes e ↦ rw (if_pos (dec k key) e) (
            keep_chain_self k key (rollback_chain id c) (rollback_table id d) e (
              ih
              ∙ ap (λ o. rollback_chain id (chain_of o)) (subst (λ q. Dict.get dec d q ≡ none) e h)
              ∙ rollback_chain-nil id))
        | no e ↦
            rw (if_neg (dec k key) e)
              (keep_chain_ne k key (rollback_chain id c) (rollback_table id d) e ∙ ih)
      ]

  table-rollback :
      (id : ℕ) (vs : List (String × List (K × List (VersionRecord D)))) (table : String)
      → chain_of (Dict.get string_discrete (rollback id vs) table)
        ≡ rollback_table id (chain_of (Dict.get string_discrete vs table))
  unfolding Dict.get rollback rollback_table
  table-rollback id [] table = refl
  table-rollback id ((t, d) ∷ vs) table = ground (arith, table-rollback id vs table)

  -- What an abort leaves of a record: the versions as the writer found them, with the mark on the
  -- newest one cleared.
  abbrev pub undone : List (VersionRecord D) → List (VersionRecord D)
  undone [] = []
  undone (v ∷ older) = record v { xmax = 0 } ∷ older

  rollback_chain-created :
      (id now : ℕ) (values : D) → rollback_chain id (new_version dec now id values ∷ []) ≡ []
  unfolding rollback_chain
  rollback_chain-created id now values = ground arith

  rollback_chain-updated :
      (id now : ℕ) (values : D) (v : VersionRecord D) (older : List (VersionRecord D))
      → rollback_chain id (new_version dec now id values ∷ record v { xmax = id } ∷ older)
        ≡ record v { xmax = 0 } ∷ older
  unfolding rollback_chain
  rollback_chain-updated id now values v older = ground arith

  versions-rollback :
      (id : ℕ) (vs : List (String × List (K × List (VersionRecord D)))) (table : String) (key : K)
      → Distinct (chain_of (Dict.get string_discrete vs table))
      → chain_of (Dict.get dec (chain_of (Dict.get string_discrete (rollback id vs) table)) key)
        ≡ rollback_chain id
            (chain_of (Dict.get dec (chain_of (Dict.get string_discrete vs table)) key))
  versions-rollback id vs table key d =
      ap (λ t. chain_of (Dict.get dec t key)) (table-rollback id vs table)
      ∙ versions-rollback_table id (chain_of (Dict.get string_discrete vs table)) key d

  abort-stored :
      (id : ℕ) (table : String) (key : K) (txn : Transaction K) (chain : List (VersionRecord D))
      (m : Manager K D)
      → Distinct (table_of dec m table)
      → versions_of dec (abort_transaction id (written dec id txn table key chain m)) table key
        ≡ rollback_chain id chain
  unfolding abort_transaction store_version do_abort
  abort-stored id table key txn chain m d =
      rw (get-put_self ℕ_discrete m.txns id (add_write dec table key txn), abort_transaction)
        (versions-rollback id (put_versions dec m table key chain) table key
            (rw get-put_self (put-Distinct (table_of dec m table) key chain d))
          ∙ ap (rollback_chain id) (rw get-put_self (rw get-put_self refl)))

  abort-Wrote :
      (now id : ℕ) (table : String) (key : K) (values : D) (m : Manager K D)
      {r : Manager K D × Bool}
      → Distinct (table_of dec m table)
      → Wrote dec now id table key values m r
      → r.1 ≡ true
      → versions_of dec (abort_transaction id r.0) table key ≡ undone (versions_of dec m table key)
  abort-Wrote now id table key values m d (Wrote.unknown h) t = cc
  abort-Wrote now id table key values m d (Wrote.refused v older c b) t = cc
  abort-Wrote now id table key values m d (created txn h c) t =
      abort-stored id table key txn _ m d ∙ rollback_chain-created id now values ∙ sym (ap undone c)
  abort-Wrote now id table key values m d (updated txn v older h c b) t =
      abort-stored id table key txn _ m d
      ∙ rollback_chain-updated id now values v older
      ∙ sym (ap undone c)

  -- After a write that was accepted and an abort of the writer, a record has the versions that it
  -- had before the write, with the deletion mark of the newest of them cleared.
  pub abort-write_version :
      (now id : ℕ) (table : String) (key : K) (values : D) (m : Manager K D)
      → Distinct (table_of dec m table)
      → (write_version dec now id table key values m).1 ≡ true
      → versions_of dec
          (abort_transaction id (write_version dec now id table key values m).0)
          table
          key
        ≡ undone (versions_of dec m table key)
  abort-write_version now id table key values m d t =
      abort-Wrote now id table key values m d (write_version-Wrote dec now id table key values m) t

  cleared_visible :
      (v : VersionRecord D) (id : ℕ) (s : TransactionSnapshot)
      → 0 < id
      → v.xmin ≢ id
      → is_committed s v.xmin ≡ true
      → contains v.xmin s.active_txns ≡ false
      → is_visible_to (record v { xmax = 0 }) id s ≡ true
  unfolding is_visible_to
  cleared_visible v id s pos ne c a = ground arith

  deleted_invisible :
      (v : VersionRecord D) (id : ℕ) (s : TransactionSnapshot)
      → 0 < id
      → v.xmin ≢ id
      → v.xmax ≢ 0
      → is_committed s v.xmax ≡ true
      → contains v.xmax s.active_txns ≡ false
      → is_visible_to v id s ≡ false
  unfolding is_visible_to
  deleted_invisible v id s pos ne gone c a = ground arith

  -- A write over a deleted record, aborted, brings the record back. Let each record have one chain,
  -- and let the newest version of the record be one that another transaction than the reader
  -- created and some transaction deleted, both of them committed and not active in the reader's
  -- snapshot, so that the reader does not see it. After an accepted write and the abort of its
  -- writer the reader finds that version, no longer deleted.
  pub abort_resurrects :
      (now writer : ℕ) (table : String) (key : K) (values : D) (m : Manager K D)
      (v : VersionRecord D) (older : List (VersionRecord D)) (reader : ℕ) (s : TransactionSnapshot)
      → Distinct (table_of dec m table)
      → (write_version dec now writer table key values m).1 ≡ true
      → versions_of dec m table key ≡ v ∷ older
      → 0 < reader
      → v.xmin ≢ reader
      → (is_committed s v.xmin ≡ true) × (contains v.xmin s.active_txns ≡ false)
      → v.xmax ≢ 0
      → (is_committed s v.xmax ≡ true) × (contains v.xmax s.active_txns ≡ false)
      → (is_visible_to v reader s ≡ false)
        × (find_visible dec reader s (
              versions_of dec
                (abort_transaction writer (write_version dec now writer table key values m).0)
                table
                key)
            ≡ some (record v { xmax = 0 }))
  unfolding find_visible
  abort_resurrects now writer table key values m v older reader s d t c pos ne (made, idle) gone
        (left, idle') =
      (
        deleted_invisible v reader s pos ne gone left idle',
        rw (abort-write_version now writer table key values m d t)
            (rw c (rw (cleared_visible v reader s pos ne made idle) refl)),
      )
