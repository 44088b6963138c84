-- ===== src/Page/Layout.antt =====
-- Where the records of a page lie: the live slots are disjoint parts of the page above `data_end`.
use solidity_course_blockcha.Prelude.{
  ℕ, zero, suc, ◌+◌, ◌-◌, ◌≤◌, ◌≡◌, ◌≢◌, ◌⊎◌, refl, ap, sym, subst, ◌∙◌, inl, inr, none, some, List,
  [], ◌∷◌, ◌++◌, arith, ℕ_discrete, length, length-append, get_elem?, get_elem?-set_self,
  get_elem?-set_ne, get_elem?-lt, get_elem?-append_length, get_elem?-append_left, dec_lt, set,
  slice, overwrite, slice-overwrite_before, slice-overwrite_after,
}
use solidity_course_blockcha.Page.Header.{page_size, SlotEntry}
use solidity_course_blockcha.Page.Records.{live_slot}

-- The slot at index `i` is in use.
abbrev pub Live : List SlotEntry → ℕ → SlotEntry → Type 0
Live slots i s = live_slot (get_elem? slots i) ≡ some s

-- Two slots share no byte.
abbrev pub Apart : SlotEntry → SlotEntry → Type 0
Apart s t = (s.offset + s.size ≤ t.offset) ⊎ (t.offset + t.size ≤ s.offset)

pub record IsLaidOut (bytes : List ℕ) (data_end : ℕ) (slots : List SlotEntry) : Type 0 where
  pub whole : length bytes ≡ page_size
  pub ends : data_end ≤ page_size
  pub within :
      (i : ℕ) (s : SlotEntry)
      → Live slots i s
      → (data_end ≤ s.offset) × (s.offset + s.size ≤ page_size)
  pub apart : (i j : ℕ) (s t : SlotEntry) → i ≢ j → Live slots i s → Live slots j t → Apart s t

-- `slots'` has a new slot at `i` and is otherwise as `slots`.
pub record Changed (slots slots' : List SlotEntry) (i : ℕ) (v : SlotEntry) : Type 0 where
  pub new : live_slot (get_elem? slots' i) ≡ live_slot (some v)
  pub others : (j : ℕ) → i ≢ j → live_slot (get_elem? slots' j) ≡ live_slot (get_elem? slots j)

-- A live slot is the one that it was made from.
Live-of : (v s : SlotEntry) → live_slot (some v) ≡ some s → v ≡ s
Live-of v s h = ground arith

-- The live slots after a change.
pub Changed-cases :
    (slots slots' : List SlotEntry) (i : ℕ) (v : SlotEntry)
    → Changed slots slots' i v
    → (j : ℕ) (s : SlotEntry) → Live slots' j s
    → ((i ≡ j) × (v ≡ s) × (live_slot (some v) ≡ some v)) ⊎ ((i ≢ j) × Live slots j s)
Changed-cases slots slots' i v c j s h = elim (ℕ_discrete i j) [
  | yes e ↦
      let placed : live_slot (some v) ≡ some s =
        sym c.new ∙ ap (λ (k : ℕ). live_slot (get_elem? slots' k)) e ∙ h in
      inl (e, Live-of v s placed, placed ∙ ap some (sym (Live-of v s placed)))
  | no ne ↦ inr (ne, sym (c.others j ne) ∙ h)
]

module _ (bytes : List ℕ) (data_end : ℕ) (slots slots' : List SlotEntry)
    (laid : IsLaidOut bytes data_end slots) where
  open laid use {whole, ends, within, apart}

  -- A slot is placed where it meets no other one.
  pub put-IsLaidOut :
      (bytes' : List ℕ) (data_end' i : ℕ) (v : SlotEntry)
      → Changed slots slots' i v
      → length bytes' ≡ page_size
      → data_end' ≤ data_end
      → (live_slot (some v) ≡ some v → (data_end' ≤ v.offset) × (v.offset + v.size ≤ page_size))
      → (live_slot (some v) ≡ some v → (j : ℕ) (t : SlotEntry) → i ≢ j → Live slots j t → Apart v t)
      → IsLaidOut bytes' data_end' slots'
  put-IsLaidOut bytes' data_end' i v c whole' lower fits clear = record {
    whole = whole';
    ends = omega arith;
    within = λ j s h. elim (Changed-cases slots slots' i v c j s h) [
      | inl (_, e, used) ↦
          subst (λ (t : SlotEntry). (data_end' ≤ t.offset) × (t.offset + t.size ≤ page_size)) e
            (fits used)
      | inr (_, h') ↦ (let w = within j s h' in omega arith)
    ];
    apart = λ j k s t ne h g. elim (Changed-cases slots slots' i v c j s h) [
      | inl (e, is, used) ↦ elim (Changed-cases slots slots' i v c k t g) [
        | inl (e', _, _) ↦ absurd (ne (sym e ∙ e'))
        | inr (ne', g') ↦ subst (λ (x : SlotEntry). Apart x t) is (clear used k t ne' g')
      ]
      | inr (ne', h') ↦ elim (Changed-cases slots slots' i v c k t g) [
        | inl (_, is, used) ↦
            subst (λ (x : SlotEntry). Apart s x) is (swap_sides v s (clear used j s ne' h'))
        | inr (_, g') ↦ apart j k s t ne h' g'
      ]
    ];
  }
    where
      swap_sides : (s t : SlotEntry) → Apart s t → Apart t s
      swap_sides s t (inl h) = inr h
      swap_sides s t (inr h) = inl h

-- A slot of the list is replaced.
pub Changed-set :
    (slots : List SlotEntry) (i : ℕ) (v old : SlotEntry)
    → get_elem? slots i ≡ some old
    → Changed slots (set slots i v) i v
Changed-set slots i v old h = record {
  new = ap live_slot (get_elem?-set_self slots i v (get_elem?-lt slots i old h));
  others = λ j ne. ap live_slot (get_elem?-set_ne slots i j v ne);
}

-- A slot is added at the end of the list.
pub Changed-append :
    (slots : List SlotEntry) (v : SlotEntry) → Changed slots (slots ++ v ∷ []) (length slots) v
Changed-append slots v = record {
  new = ap live_slot (get_elem?-append_length slots v);
  others = λ j ne. elim (dec_lt j (length slots)) [
    | yes h ↦ ap live_slot (get_elem?-append_left slots (v ∷ []) j h)
    | no h ↦ ap live_slot (
        past (slots ++ v ∷ []) j (omega (arith, length-append slots (v ∷ [])))
        ∙ sym (past slots j (omega arith)))
  ];
}
  where
    past : (xs : List SlotEntry) (j : ℕ) → length xs ≤ j → get_elem? xs j ≡ none
    past [] j h = refl
    past (x ∷ xs) zero h = absurd (omega arith)
    past (x ∷ xs) (suc j) h = past xs j (omega arith)

module _ (bytes : List ℕ) (data_end : ℕ) (slots : List SlotEntry)
    (laid : IsLaidOut bytes data_end slots) where
  -- The bytes of the live slots after a record is written below all of them.
  pub below_keeps :
      (r : List ℕ) (j : ℕ) (s : SlotEntry)
      → length r ≤ data_end
      → Live slots j s
      → slice (overwrite bytes (data_end - length r) r) s.offset s.size
        ≡ slice bytes s.offset s.size
  below_keeps r j s room h =
      let w = laid.within j s h in
      let e = laid.ends in
      let n = laid.whole in
      slice-overwrite_after bytes (data_end - length r) r s.offset s.size (omega arith)
        (omega arith)

  -- The bytes of the live slots after a write into another slot.
  pub inside_keeps :
      (r : List ℕ) (i j : ℕ) (t s : SlotEntry)
      → i ≢ j
      → Live slots i t
      → Live slots j s
      → length r ≤ t.size
      → slice (overwrite bytes t.offset r) s.offset s.size ≡ slice bytes s.offset s.size
  inside_keeps r i j t s ne g h short =
      let w = laid.within i t g in
      let n = laid.whole in
      elim (laid.apart i j t s ne g h) [
        | inl after ↦
            slice-overwrite_after bytes t.offset r s.offset s.size (omega arith) (omega arith)
        | inr before ↦
            slice-overwrite_before bytes t.offset r s.offset s.size (omega arith) (omega arith)
      ]
