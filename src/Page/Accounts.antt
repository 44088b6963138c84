-- ===== src/Page/Accounts.antt =====
-- The invariant of a page: its records lie apart, and its counters agree with its slots.
use solidity_course_blockcha.Prelude.{
  ℕ, zero, suc, ◌+◌, ◌-◌, ◌*◌, ◌≡◌, ap, sym, ◌∙◌, inl, inr, none, some, List, [], ◌∷◌, ◌++◌,
  Option-cases, arith, length, get_elem?, set,
}
use solidity_course_blockcha.Page.Header.{page_size, header_size, slot_size, SlotEntry, Page}
use solidity_course_blockcha.Page.Records.{slot_at, record_of, read_record}
use solidity_course_blockcha.Page.Layout.{Live, IsLaidOut}

-- The bytes that the slots take.
abbrev pub total : List SlotEntry → ℕ
total [] = 0
total (s ∷ slots) = s.size + total slots

pub total-set :
    (slots : List SlotEntry) (i : ℕ) (v old : SlotEntry)
    → get_elem? slots i ≡ some old
    → total (set slots i v) + old.size ≡ total slots + v.size
total-set [] i v old h = cc
total-set (x ∷ slots) zero v old h =
    let e : x ≡ old = cc in
    let n : x.size ≡ old.size = ap (λ (s : SlotEntry). s.size) e in omega arith
total-set (x ∷ slots) (suc i) v old h = omega (arith, total-set slots i v old h)

pub total-append :
    (slots : List SlotEntry) (v : SlotEntry) → total (slots ++ v ∷ []) ≡ total slots + v.size
total-append [] v = omega arith
total-append (x ∷ slots) v = omega (arith, total-append slots v)

pub record IsSound (p : Page) : Type 0 where
  pub laid : IsLaidOut p.bytes (p.header).data_end p.slots
  pub counted : (p.header).num_slots ≡ length p.slots
  pub accounted :
      (p.header).free_space + total p.slots + length p.slots * slot_size ≡ page_size - header_size

pub read-Live :
    (p : Page) (i : ℕ) (s : SlotEntry) → Live p.slots i s → read_record i p ≡ some (record_of p s)
unfolding read_record
read-Live p i s h = rw (h, read_record)

pub read_free : (p : Page) (i : ℕ) → slot_at i p ≡ none → read_record i p ≡ none
unfolding read_record
read_free p i h = rw (h, read_record)

-- A record whose slot and bytes are kept is read as before.
pub read_kept :
    (p p' : Page) (j : ℕ)
    → slot_at j p' ≡ slot_at j p
    → ((s : SlotEntry) → Live p.slots j s → record_of p' s ≡ record_of p s)
    → read_record j p' ≡ read_record j p
read_kept p p' j same bytes = elim (Option-cases (slot_at j p)) [
  | inl e ↦ read_free p' j (same ∙ e) ∙ sym (read_free p j e)
  | inr (s, e) ↦ read-Live p' j s (same ∙ e) ∙ ap some (bytes s e) ∙ sym (read-Live p j s e)
]

-- A record that is read has its slot.
pub read_some :
    (p : Page) (i : ℕ) (r : List ℕ)
    → read_record i p ≡ some r
    → (s : SlotEntry) × Live p.slots i s × (record_of p s ≡ r)
read_some p i r h = elim (Option-cases (slot_at i p)) [
  | inl e ↦ absurd (none_not (sym (read_free p i e) ∙ h))
  | inr (s, e) ↦ (s, e, some_eq (sym (read-Live p i s e) ∙ h))
]
  where
    none_not : none ≡ some r → ⊥
    none_not e = cc

    some_eq : {x y : List ℕ} → some x ≡ some y → x ≡ y
    some_eq e = cc
