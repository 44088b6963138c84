-- ===== src/Page/Swaps.antt =====
-- Two slots of a page change places.
use solidity_course_blockcha.Prelude.{
  ℕ, ◌<◌, ◌≡◌, ◌≢◌, refl, ap, sym, ◌∙◌, inl, inr, some, List, ◌==◌, if◌then◌else◌, Option-cases,
  arith, ℕ_discrete, length, get_elem?-lt, get_elem?-set_self, get_elem?-set_ne, length-set,
  get_elem?, set,
}
use solidity_course_blockcha.Page.Header.{SlotEntry, Page}
use solidity_course_blockcha.Page.Records.{live_slot, slot_at, read_record, swap_slots}
use solidity_course_blockcha.Page.Layout.{Live, IsLaidOut}
use solidity_course_blockcha.Page.Accounts.{total-set, IsSound, read-Live, read_free}

-- A live slot is in the list.
pub Live-get_elem? :
    (slots : List SlotEntry) (i : ℕ) (s : SlotEntry) → Live slots i s → get_elem? slots i ≡ some s
Live-get_elem? slots i s h = elim (Option-cases (get_elem? slots i)) [
  | inl e ↦ ground arith
  | inr (t, e) ↦ ground arith
]

-- Two slots change places.
module _ (p : Page) (i j : ℕ) (a b : SlotEntry) (ne : i ≢ j) (at_i : get_elem? p.slots i ≡ some a)
    (at_j : get_elem? p.slots j ≡ some b) (sound : IsSound p) where
  abbrev pub swapped : List SlotEntry
  swapped = set (set p.slots i b) j a

  abbrev pub other_end : ℕ → ℕ
  other_end k = if k == i then j else if k == j then i else k

  in_first : j < length (set p.slots i b)
  in_first = omega (arith, length-set p.slots i b, get_elem?-lt p.slots j b at_j)

  swapped-get_elem? : (k : ℕ) → get_elem? swapped k ≡ get_elem? p.slots (other_end k)
  swapped-get_elem? k = elim (ℕ_discrete j k) [
    | yes e ↦
        ap (get_elem? swapped) (sym e)
        ∙ get_elem?-set_self (set p.slots i b) j a in_first
        ∙ sym at_i
        ∙ ap (get_elem? p.slots) (ground arith)
    | no ne_j ↦ get_elem?-set_ne (set p.slots i b) j k a ne_j ∙ elim (ℕ_discrete i k) [
      | yes e ↦
          ap (get_elem? (set p.slots i b)) (sym e)
          ∙ get_elem?-set_self p.slots i b (get_elem?-lt p.slots i a at_i)
          ∙ sym at_j
          ∙ ap (get_elem? p.slots) (ground arith)
      | no ne_i ↦ get_elem?-set_ne p.slots i k b ne_i ∙ ap (get_elem? p.slots) (ground arith)
    ]
  ]

  swapped-Live : (k : ℕ) (s : SlotEntry) → Live swapped k s → Live p.slots (other_end k) s
  swapped-Live k s h = ap live_slot (sym (swapped-get_elem? k)) ∙ h

  other_end_ne : (k l : ℕ) → k ≢ l → other_end k ≢ other_end l
  other_end_ne k l h = ground arith

  swapped-IsLaidOut : IsLaidOut p.bytes (p.header).data_end swapped
  swapped-IsLaidOut = record {
    whole = (sound.laid).whole;
    ends = (sound.laid).ends;
    within = λ k s h. (sound.laid).within (other_end k) s (swapped-Live k s h);
    apart = λ k l s t d g h.
        (sound.laid).apart (other_end k) (other_end l) s t (other_end_ne k l d) (swapped-Live k s g)
          (swapped-Live l t h);
  }

  pub swapped-IsSound : IsSound (record p { slots = swapped })
  swapped-IsSound = record {
    laid = swapped-IsLaidOut;
    counted = sound.counted ∙ sym (length-set p.slots i b) ∙ sym (length-set (set p.slots i b) j a);
    accounted =
        (let first = total-set p.slots i b a at_i in
          let second =
            total-set (set p.slots i b) j a b (get_elem?-set_ne p.slots i j b ne ∙ at_j) in
          let o = sound.accounted in
          let n = length-set p.slots i b in
          let m = length-set (set p.slots i b) j a in omega arith);
  }

  pub swapped_reads :
      (k : ℕ) → read_record k (record p { slots = swapped }) ≡ read_record (other_end k) p
  swapped_reads k = elim (Option-cases (slot_at (other_end k) p)) [
    | inl e ↦
        read_free (record p { slots = swapped }) k (ap live_slot (swapped-get_elem? k) ∙ e)
        ∙ sym (read_free p (other_end k) e)
    | inr (s, e) ↦
        read-Live (record p { slots = swapped }) k s (ap live_slot (swapped-get_elem? k) ∙ e)
        ∙ sym (read-Live p (other_end k) s e)
  ]

  pub swap_slots_is : swap_slots i j p ≡ record p { slots = swapped }
  swap_slots_is = rw (at_i, at_j) refl
