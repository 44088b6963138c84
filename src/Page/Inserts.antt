-- ===== src/Page/Inserts.antt =====
-- What an insertion does to a page.
use solidity_course_blockcha.Prelude.{
  ℕ, suc, Option, ◌++◌, max, take, drop, length-take, length-drop, ◌+◌, ◌-◌, ◌<◌, ◌≤◌, ◌≡◌, ◌≢◌,
  refl, ap, sym, subst, ◌∙◌, inl, inr, none, some, List, [], ◌∷◌, ltb, ltb→lt, ltb-false→le,
  Bool-cases, Option-cases, arith, length, length-append, length-set, get_elem?, slice, overwrite,
  length-overwrite, slice-overwrite_self,
}
use solidity_course_blockcha.Page.Header.{page_size, slot_size, SlotEntry, is_deleted, Page}
use solidity_course_blockcha.Page.Records.{
  first_deleted, NegativePage, Placed, at_page, below_zero, assign_from_end, place, place_below,
  insert_record, live_slot, read_record,
}
use solidity_course_blockcha.Page.Layout.{
  IsLaidOut, Changed, put-IsLaidOut, Changed-set, Changed-append, below_keeps,
}
use solidity_course_blockcha.Page.Accounts.{
  total-set, total-append, IsSound, read-Live, read_free, read_kept,
}

-- The record fits the free space, and is longer than the room below the records: the page is longer
-- by the record, since Python takes the negative offset from the page's end.
pub record IsBelowZero (r : List ℕ) (p : Page) (n : NegativePage) : Type 0 where
  pub enough : length r + slot_size ≤ (p.header).free_space
  pub short : (p.header).data_end < length r
  pub how_far : n.below + (p.header).data_end ≡ length r
  pub grown : length (n.page).bytes ≡ page_size + length r

-- A record that was inserted is read at its index, which was free, and no other record changes.
pub data Stored (r : List ℕ) (p : Page) : Placed (Option ℕ) → Type 0 where
  stored :
      (p' : Page) (i : ℕ)
      → IsSound p'
      → read_record i p ≡ none
      → (0 < length r → read_record i p' ≡ some r)
      → ((j : ℕ) → i ≢ j → read_record j p' ≡ read_record j p)
      → length p.slots ≤ length p'.slots
      → Stored r p (at_page p' (some i))
  no_space : (p.header).free_space < length r + slot_size → Stored r p (at_page p none)
  no_room :
      (n : NegativePage)
      → IsBelowZero r p n
      → read_record n.slot p ≡ none
      → Stored r p (below_zero n (some n.slot))

pub first_deleted-get_elem? :
    (k : ℕ) (slots : List SlotEntry) (i : ℕ)
    → first_deleted k slots ≡ some i
    → (j : ℕ) × (s : SlotEntry) × (i ≡ k + j) × (get_elem? slots j ≡ some s) × (s.size ≡ 0)
unfolding first_deleted
first_deleted-get_elem? k [] i h = cc
first_deleted-get_elem? k (s ∷ slots) i h = elim (Bool-cases (is_deleted s)) [
  | inl b ↦ (0, s, ground arith, refl, ground arith)
  | inr b ↦
      let (j, t, at, g, z) = first_deleted-get_elem? (suc k) slots i (ground arith) in
      (suc j, t, omega arith, g, z)
]

past : (xs : List SlotEntry) → get_elem? xs (length xs) ≡ none
past [] = refl
past (x ∷ xs) = past xs

module _ (r : List ℕ) (p : Page) (sound : IsSound p) (room : length r ≤ (p.header).data_end) where
  open sound use {laid, counted, accounted}

  -- The slot of the new record.
  abbrev fresh : SlotEntry
  fresh = record { offset = (p.header).data_end - length r; size = length r }

  module _ (slots' : List SlotEntry) (i : ℕ) (c : Changed p.slots slots' i fresh) where
    laid_after :
        IsLaidOut
          (overwrite p.bytes ((p.header).data_end - length r) r)
          ((p.header).data_end - length r)
          slots'
    laid_after =
        let n = laid.whole in
        let e = laid.ends in
        put-IsLaidOut p.bytes (p.header).data_end p.slots slots' laid _ _ i fresh c
          (length-overwrite p.bytes _ r (omega arith) ∙ laid.whole) (omega arith)
          (λ used. (omega arith, omega arith))
          (λ used j t ne h. inl (let w = laid.within j t h in omega arith))

    module _ (p' : Page)
        (bytes_are : p'.bytes ≡ overwrite p.bytes ((p.header).data_end - length r) r)
        (slots_are : p'.slots ≡ slots') where
      reads_new : 0 < length r → read_record i p' ≡ some r
      reads_new pos =
          let used : live_slot (some fresh) ≡ some fresh = ground arith in
          let n = laid.whole in
          let e = laid.ends in
          read-Live p' i fresh (rw slots_are (c.new ∙ used))
          ∙ ap some (
              ap (λ (b : List ℕ). slice b fresh.offset fresh.size) bytes_are
              ∙ slice-overwrite_self p.bytes _ r (omega arith))

      reads_others : (j : ℕ) → i ≢ j → read_record j p' ≡ read_record j p
      reads_others j ne = read_kept p p' j (rw slots_are (c.others j ne)) (λ s h.
          ap (λ (b : List ℕ). slice b s.offset s.size) bytes_are
          ∙ below_keeps p.bytes (p.header).data_end p.slots laid r j s room h)

  place_old :
      (i : ℕ) (s : SlotEntry)
      → get_elem? p.slots i ≡ some s
      → s.size ≡ 0
      → length r + slot_size ≤ (p.header).free_space
      → Stored r p (place r p (some i))
  unfolding place
  place_old i s g z enough =
      let c = Changed-set p.slots i fresh s g in
      let t = total-set p.slots i fresh s g in
      stored _ i
        (record {
          laid = laid_after _ i c;
          counted = counted ∙ sym (length-set p.slots i fresh);
          accounted = omega (arith, length-set p.slots i fresh);
        })
        (read_free p i (rw g (ground arith))) (reads_new _ i c _ refl refl)
        (reads_others _ i c _ refl refl) (omega (arith, length-set p.slots i fresh))

  place_last : length r + slot_size ≤ (p.header).free_space → Stored r p (place r p none)
  unfolding place
  place_last enough =
      let c = Changed-append p.slots fresh in
      let t = total-append p.slots fresh in
      let n = length-append p.slots (fresh ∷ []) in
      stored _ (length p.slots)
        (record { laid = laid_after _ _ c; counted = omega arith; accounted = omega arith })
        (read_free p (length p.slots) (ap live_slot (past p.slots))) (reads_new _ _ c _ refl refl)
        (reads_others _ _ c _ refl refl) (omega arith)

length-assign_from_end :
    (b r : List ℕ) (k stop : ℕ)
    → stop + k ≤ length b
    → length (assign_from_end b k stop r) ≡ length b + length r
unfolding assign_from_end
length-assign_from_end b r k stop fits =
    let start = length b - k in
    omega (
      arith,
      length-append (take start b) (r ++ drop (max start stop) b),
      length-append r (drop (max start stop) b),
      length-take start b,
      length-drop (max start stop) b,
    )

module _ (r : List ℕ) (p : Page) (sound : IsSound p)
    (enough : length r + slot_size ≤ (p.header).free_space)
    (short : (p.header).data_end < length r) where
  below_bytes :
      length (assign_from_end p.bytes (length r - (p.header).data_end) (p.header).data_end r)
      ≡ page_size + length r
  below_bytes =
      let n = (sound.laid).whole in
      let o = sound.accounted in
      length-assign_from_end p.bytes r (length r - (p.header).data_end) (p.header).data_end
        (omega arith)
      ∙ omega arith

  placed_below :
      (reused : Option ℕ) → first_deleted 0 p.slots ≡ reused → Stored r p (place_below r p reused)
  unfolding place_below
  placed_below none e =
      no_room _
        (record { enough = enough; short = short; how_far = omega arith; grown = below_bytes })
        (read_free p (length p.slots) (ap live_slot (past p.slots)))
  placed_below (some i) e =
      let (j, s, at, g, z) = first_deleted-get_elem? 0 p.slots i e in
      let is : j ≡ i = omega arith in
      no_room _
        (record { enough = enough; short = short; how_far = omega arith; grown = below_bytes })
        (read_free p i (rw (subst (λ (k : ℕ). get_elem? p.slots k ≡ some s) is g) (ground arith)))

-- An insertion into a sound page stores the record at an index that held none, where it is read from
-- then on unless it is empty, leaves every other record as it was and keeps the page sound; or the
-- free space is too small and nothing changes; or the record fits the free space and not the room
-- below the records, and then the page has a slot with a negative offset, under an index that held
-- no record, and is longer by the record.
pub insert_record-Stored : (r : List ℕ) (p : Page) → IsSound p → Stored r p (insert_record r p)
unfolding insert_record
insert_record-Stored r p sound =
    elim (Bool-cases (ltb (p.header).free_space (length r + slot_size))) [
      | inl b ↦ rw (b, insert_record) (no_space (ltb→lt _ _ b))
      | inr b ↦
          let enough = ltb-false→le _ _ b in
          elim (Bool-cases (ltb (p.header).data_end (length r))) [
            | inl l ↦
                rw (b, insert_record)
                  (rw (l, insert_record)
                    (placed_below r p sound enough (ltb→lt _ _ l) (first_deleted 0 p.slots) refl))
            | inr l ↦
                let room = ltb-false→le _ _ l in
                rw (b, insert_record)
                  (rw (l, insert_record)
                    (elim (Option-cases (first_deleted 0 p.slots)) [
                      | inl e ↦ rw e (place_last r p sound room enough)
                      | inr (i, e) ↦
                          let (j, s, at, g, z) = first_deleted-get_elem? 0 p.slots i e in
                          let is : j ≡ i = omega arith in
                          rw e (
                            place_old r p sound room i s
                              (subst (λ (k : ℕ). get_elem? p.slots k ≡ some s) is g) z enough)
                    ]))
          ]
    ]
