-- ===== src/Mvcc/Visibility.antt =====
-- Which versions a transaction sees, said of the transactions whose effects its snapshot has.
use solidity_course_blockcha.Prelude.{ℕ, ◌<◌, ◌≡◌, ◌⊎◌, ◌↔◌, arith, true, false, contains}
use solidity_course_blockcha.Mvcc.Version.{
  VersionRecord, TransactionSnapshot, is_visible_to, is_committed,
}

-- The transaction has the effects of `x`: they are its own, or `x` had committed at its start.
abbrev pub Sees : TransactionSnapshot → ℕ → ℕ → Type 0
Sees s id x = (x ≡ id) ⊎ ((is_committed s x ≡ true) × (contains x s.active_txns ≡ false))

-- A version is seen when its creator is, and when it is not deleted or its deleter is not seen.
abbrev pub Visible : {D : Type 0} → VersionRecord D → ℕ → TransactionSnapshot → Type 0
Visible v id s = Sees s id v.xmin × ((v.xmax ≡ 0) ⊎ (¬ Sees s id v.xmax))

module _ {D : Type 0} (v : VersionRecord D) (id : ℕ) (s : TransactionSnapshot) where
  is_visible_to-Visible :
      0 < id
      → ((x : ℕ) → is_committed s x ≡ true → contains x s.active_txns ≡ false)
      → is_visible_to v id s ≡ true
      → Visible v id s
  unfolding is_visible_to
  is_visible_to-Visible pos apart h = ground (arith, apart v.xmin, apart v.xmax)

  Visible-is_visible_to :
      0 < id
      → ((x : ℕ) → is_committed s x ≡ true → contains x s.active_txns ≡ false)
      → Visible v id s
      → is_visible_to v id s ≡ true
  unfolding is_visible_to
  Visible-is_visible_to pos apart (c, d) = ground (arith, apart v.xmin, apart v.xmax)

  -- For a snapshot in which no committed transaction is active, and ids that start at 1, the test
  -- of visibility decides whether the version is seen.
  pub is_visible_to_iff :
      0 < id
      → ((x : ℕ) → is_committed s x ≡ true → contains x s.active_txns ≡ false)
      → (is_visible_to v id s ≡ true) ↔ Visible v id s
  is_visible_to_iff pos apart = (is_visible_to-Visible pos apart, Visible-is_visible_to pos apart)
