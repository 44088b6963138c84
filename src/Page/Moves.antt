-- ===== src/Page/Moves.antt =====
-- The loop of a compaction: each step moves one record.
use solidity_course_blockcha.Prelude.{
  ℕ, zero, suc, ◌+◌, ◌-◌, ◌≤◌, ◌≡◌, refl, ap, sym, subst, ◌∙◌, inl, inr, some, List, [], ◌∷◌, arith,
  length, length-set, get_elem?, get_elem?-set_self, get_elem?-set_ne, get_elem?-lt, set, slice,
  overwrite, length-overwrite, slice-overwrite_self,
}
use solidity_course_blockcha.Page.Header.{SlotEntry}
use solidity_course_blockcha.Page.Records.{live_slot, pack_records}
use solidity_course_blockcha.Page.Layout.{
  Live, IsLaidOut, Changed, put-IsLaidOut, Changed-cases, below_keeps,
}
use solidity_course_blockcha.Page.Erasures.{
  gone, erase, Ascending, sum_length, erase_local, erase_before, Pending, sizes_of,
}

sizes_of-get_elem? :
    (slots : List SlotEntry) (i n : ℕ)
    → get_elem? (sizes_of slots) i ≡ some n
    → (s : SlotEntry) × (get_elem? slots i ≡ some s) × (s.size ≡ n)
sizes_of-get_elem? [] i n h = cc
sizes_of-get_elem? (s ∷ slots) zero n h = (s, refl, ground arith)
sizes_of-get_elem? (s ∷ slots) (suc i) n h = sizes_of-get_elem? slots i n h

sizes_of-set :
    (slots : List SlotEntry) (i : ℕ) (v : SlotEntry)
    → get_elem? (sizes_of slots) i ≡ some v.size
    → sizes_of (set slots i v) ≡ sizes_of slots
sizes_of-set [] i v h = refl
sizes_of-set (s ∷ slots) zero v h =
    let e : s.size ≡ v.size = ground arith in ap (λ (n : ℕ). n ∷ sizes_of slots) (sym e)
sizes_of-set (s ∷ slots) (suc i) v h = ap (◌∷◌ s.size) (sizes_of-set slots i v h)

-- The loop, with the records `rs` still to be moved.
pub record Packing (content : ℕ → List ℕ) (sizes : List ℕ) (rs : List (ℕ × List ℕ)) (at : ℕ)
    (bytes : List ℕ) (slots : List SlotEntry) : Type 0 where
  pub sizes_are : sizes_of slots ≡ sizes
  pub pending : Pending content sizes rs
  pub laid : IsLaidOut bytes at (erase rs slots)
  pub reads :
      (j : ℕ) (s : SlotEntry) → Live (erase rs slots) j s → slice bytes s.offset s.size ≡ content j
  pub room : sum_length rs ≤ at

module _ (content : ℕ → List ℕ) (sizes : List ℕ) where
  module _ (i k : ℕ) (r : List ℕ) (rs : List (ℕ × List ℕ)) (at : ℕ) (bytes : List ℕ)
      (slots : List SlotEntry) (up : Ascending k ((i, r) ∷ rs))
      (inv : Packing content sizes ((i, r) ∷ rs) at bytes slots) where
    open inv use {sizes_are, pending, laid, reads, room}

    abbrev moved : SlotEntry
    moved = record { offset = at - length r; size = length r }

    step-Changed : Changed (erase rs (set slots i gone)) (erase rs (set slots i moved)) i moved
    step-Changed =
        let (size, _, _, _) = pending in
        let (s, g, _) =
          sizes_of-get_elem? slots i (length r)
            (ap (λ (l : List ℕ). get_elem? l i) sizes_are ∙ size) in
        record {
          new = ap live_slot (
              erase_before rs (set slots i moved) (suc i) i up.1 (omega arith)
              ∙ get_elem?-set_self slots i moved (get_elem?-lt slots i s g));
          others = λ j ne. ap live_slot (
              erase_local rs (set slots i moved) (set slots i gone) j
                (length-set slots i moved ∙ sym (length-set slots i gone))
                (get_elem?-set_ne slots i j moved ne ∙ sym (get_elem?-set_ne slots i j gone ne)));
        }

    step-Packing :
        Packing content sizes rs
          (at - length r)
          (overwrite bytes (at - length r) r)
          (set slots i moved)
    step-Packing =
        let (size, pos, is, rest) = pending in
        let n = laid.whole in
        let e = laid.ends in
        record {
          sizes_are =
              sizes_of-set slots i moved (ap (λ (l : List ℕ). get_elem? l i) sizes_are ∙ size)
              ∙ sizes_are;
          pending = rest;
          laid =
              put-IsLaidOut bytes at _ _ laid _ _ i moved step-Changed
                (length-overwrite bytes _ r (omega arith) ∙ n) (omega arith)
                (λ used. (omega arith, omega arith))
                (λ used j t ne h. inl (let w = laid.within j t h in omega arith));
          reads = λ j s h. elim (Changed-cases _ _ i moved step-Changed j s h) [
            | inl (same, v, _) ↦
                subst
                  (λ (t : SlotEntry).
                    slice (overwrite bytes (at - length r) r) t.offset t.size ≡ content j)
                  v (slice-overwrite_self bytes _ r (omega arith) ∙ sym is ∙ ap content same)
            | inr (ne, h') ↦ below_keeps bytes at _ laid r j s (omega arith) h' ∙ reads j s h'
          ];
          room = omega arith;
        }

  -- What the loop gives.
  pub data Packed (sum at : ℕ) : List ℕ × List SlotEntry × ℕ → Type 0 where
    packed :
        (bytes : List ℕ) (slots : List SlotEntry) (at' : ℕ)
        → sizes_of slots ≡ sizes
        → IsLaidOut bytes at' slots
        → ((j : ℕ) (s : SlotEntry) → Live slots j s → slice bytes s.offset s.size ≡ content j)
        → at' + sum ≡ at
        → Packed sum at (bytes, slots, at')

  Packed-after :
      (n sum at : ℕ) {q : List ℕ × List SlotEntry × ℕ}
      → n ≤ at
      → Packed sum (at - n) q
      → Packed (n + sum) at q
  Packed-after n sum at le (packed bytes slots at' sizes_are laid reads is) =
      packed bytes slots at' sizes_are laid reads (omega arith)

  pub pack_records-Packed :
      (k : ℕ) (rs : List (ℕ × List ℕ)) (at : ℕ) (bytes : List ℕ) (slots : List SlotEntry)
      → Ascending k rs
      → Packing content sizes rs at bytes slots
      → Packed (sum_length rs) at (pack_records rs at bytes slots)
  unfolding pack_records
  pack_records-Packed k [] at bytes slots up inv =
      packed bytes slots at inv.sizes_are inv.laid inv.reads (omega arith)
  pack_records-Packed k ((i, r) ∷ rs) at bytes slots up inv =
      Packed-after (length r) (sum_length rs) at (let m = inv.room in omega arith) (
        pack_records-Packed (suc i) rs (at - length r) _ _ up.1
          (step-Packing i k r rs at bytes slots up inv))
