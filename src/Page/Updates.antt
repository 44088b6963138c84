-- ===== src/Page/Updates.antt =====
-- What a deletion and an update do to a page.
use solidity_course_blockcha.Prelude.{
  ℕ, ◌+◌, ◌<◌, ◌≤◌, ◌≡◌, ◌≢◌, refl, ap, sym, ◌∙◌, inl, inr, Bool, true, false, Option, none, some,
  List, ◌==◌, leb, leb→le, leb-false→lt, if◌then◌else◌, Bool-cases, Option-cases, arith, ℕ_discrete,
  length, get_elem?-lt, get_elem?-some, length-set, length-overwrite, length-take, drop,
  slice-overwrite_self,
}
use solidity_course_blockcha.Page.Header.{slot_size, SlotEntry, Page}
use solidity_course_blockcha.Page.Records.{
  NegativePage, Placed, at_page, below_zero, swap_below, insert_record, live_slot, slot_at,
  record_of, read_record, delete_record, update_record, moved_to,
}
use solidity_course_blockcha.Page.Layout.{Live, Apart, put-IsLaidOut, Changed-set, inside_keeps}
use solidity_course_blockcha.Page.Accounts.{
  total-set, IsSound, read-Live, read_free, read_kept, read_some,
}
use solidity_course_blockcha.Page.Swaps.{
  Live-get_elem?, swapped, other_end, swapped-IsSound, swapped_reads, swap_slots_is,
}
use solidity_course_blockcha.Page.Inserts.{
  IsBelowZero, Stored, stored, no_space, no_room, insert_record-Stored,
}

abbrev gone : SlotEntry
gone = record { offset = 0; size = 0 }

-- A deletion frees the record of its slot and keeps the others.
pub data Deleted (i : ℕ) (p : Page) : Page × Bool → Type 0 where
  not_there : read_record i p ≡ none → Deleted i p (p, false)
  deleted :
      (p' : Page) (s : SlotEntry)
      → Live p.slots i s
      → IsSound p'
      → read_record i p' ≡ none
      → ((j : ℕ) → i ≢ j → read_record j p' ≡ read_record j p)
      → length p'.slots ≡ length p.slots
      → Deleted i p (p', true)

pub delete_record-Deleted : (i : ℕ) (p : Page) → IsSound p → Deleted i p (delete_record i p)
unfolding delete_record
delete_record-Deleted i p sound = elim (Option-cases (slot_at i p)) [
  | inl e ↦ rw (e, delete_record) (not_there (read_free p i e))
  | inr (s, e) ↦
      let g = Live-get_elem? p.slots i s e in
      let c = Changed-set p.slots i gone s g in
      let t = total-set p.slots i gone s g in
      let o = sound.accounted in
      rw (e, delete_record)
        (deleted _ s e
          (record {
            laid =
                put-IsLaidOut p.bytes (p.header).data_end p.slots _ sound.laid p.bytes
                  (p.header).data_end i gone c (sound.laid).whole (omega arith) (λ used. cc)
                  (λ used. cc);
            counted = sound.counted ∙ sym (length-set p.slots i gone);
            accounted = omega (arith, length-set p.slots i gone);
          })
          (read_free _ i c.new) (λ j ne. read_kept p _ j (c.others j ne) (λ s h. refl))
          (length-set p.slots i gone))
]

-- What an update leaves and returns.
pub data Updated (i : ℕ) (r : List ℕ) (p : Page) : Placed Bool → Type 0 where
  no_record : read_record i p ≡ none → Updated i r p (at_page p false)
  updated :
      (p' : Page)
      → IsSound p'
      → (0 < length r → read_record i p' ≡ some r)
      → ((j : ℕ) → i ≢ j → read_record j p' ≡ read_record j p)
      → Updated i r p (at_page p' true)
  -- The record is lost where the new one does not fit.
  lost :
      (p' : Page) (old : List ℕ)
      → read_record i p ≡ some old
      → IsSound p'
      → read_record i p' ≡ none
      → ((j : ℕ) → i ≢ j → read_record j p' ≡ read_record j p)
      → (p'.header).free_space < length r + slot_size
      → length old < length r
      → Updated i r p (at_page p' false)
  -- The new one fits the free space and not the room below the records of the page without it.
  no_room_left :
      (p' : Page) (n : NegativePage) (old : List ℕ)
      → read_record i p ≡ some old
      → IsSound p'
      → read_record i p' ≡ none
      → ((j : ℕ) → i ≢ j → read_record j p' ≡ read_record j p)
      → IsBelowZero r p' n
      → n.slot ≡ i
      → length old < length r
      → Updated i r p (below_zero n true)

shorter :
    (i : ℕ) (r : List ℕ) (p : Page) (s : SlotEntry)
    → IsSound p
    → Live p.slots i s
    → length r ≤ s.size
    → Updated i r p (update_record i r p)
unfolding update_record
shorter i r p s sound live short =
    let v : SlotEntry = record { offset = s.offset; size = length r } in
    let g = Live-get_elem? p.slots i s live in
    let c = Changed-set p.slots i v s g in
    let t = total-set p.slots i v s g in
    let o = sound.accounted in
    let w = (sound.laid).within i s live in
    let n = (sound.laid).whole in
    let fits : leb (length r) s.size ≡ true = ground arith in
    rw (live, update_record)
      (rw (fits, update_record)
        (updated _
          (record {
            laid =
                put-IsLaidOut p.bytes (p.header).data_end p.slots _ sound.laid _ (p.header).data_end
                  i v c (length-overwrite p.bytes s.offset r (omega arith) ∙ n) (omega arith)
                  (λ used. omega arith)
                  (λ used j t ne h. narrower j t ((sound.laid).apart i j s t ne live h));
            counted = sound.counted ∙ sym (length-set p.slots i v);
            accounted = omega (arith, length-set p.slots i v);
          })
          (λ pos.
            (let used : live_slot (some v) ≡ some v = ground arith in
              read-Live _ i v (c.new ∙ used)
              ∙ ap some (slice-overwrite_self p.bytes s.offset r (omega arith))))
          (λ j ne. read_kept p _ j (c.others j ne) (λ t h.
            inside_keeps p.bytes (p.header).data_end p.slots sound.laid r i j s t ne live h
              short))))
  where
    narrower :
        (j : ℕ) (t : SlotEntry)
        → Apart s t
        → Apart (record { offset = s.offset; size = length r }) t
    narrower j t (inl h) = inl (omega arith)
    narrower j t (inr h) = inr h

module _ (i : ℕ) (r : List ℕ) (p : Page) (s : SlotEntry) (sound : IsSound p)
    (live : Live p.slots i s) (long : s.size < length r) where
  old_shorter : length (record_of p s) < length r
  old_shorter = omega (arith, length-take s.size (drop s.offset p.bytes))

  elsewhere :
      (p1 p2 : Page) (j k : ℕ)
      → i ≢ j
      → i ≢ k
      → (end : ℕ) → end ≡ (if k == i then j else if k == j then i else k)
      → read_record j p1 ≡ none
      → read_record i p2 ≡ none
      → ((l : ℕ) → i ≢ l → read_record l p1 ≡ read_record l p)
      → ((l : ℕ) → j ≢ l → read_record l p2 ≡ read_record l p1)
      → read_record end p2 ≡ read_record k p
  elsewhere p1 p2 j k ne ne_k end is free_j gone_i kept others = elim (ℕ_discrete j k) [
    | yes e ↦
        let to : end ≡ i = ground arith in
        ap (λ (l : ℕ). read_record l p2) to
        ∙ gone_i
        ∙ sym free_j
        ∙ kept j ne
        ∙ ap (λ (l : ℕ). read_record l p) e
    | no d ↦
        let to : end ≡ k = ground arith in
        ap (λ (l : ℕ). read_record l p2) to ∙ others k d ∙ kept k ne_k
  ]

  -- The record goes to the slot that the insertion chose, and back to its own.
  moved :
      (p1 : Page)
      → read_record i p1 ≡ none
      → ((j : ℕ) → i ≢ j → read_record j p1 ≡ read_record j p)
      → i < length p1.slots
      → (q : Placed (Option ℕ)) → IsSound p1
      → Stored r p1 q
      → Updated i r p (moved_to i q)
  moved p1 free kept range _ sound1 (stored p2 j sound2 free_j reads others longer) =
      elim (ℕ_discrete i j) [
        | yes e ↦
            let b : (i == j) ≡ true = ground arith in
            rw b (
              updated p2 sound2 (λ pos. ap (λ (k : ℕ). read_record k p2) e ∙ reads pos)
                (λ k ne. others k (λ same. ne (e ∙ same)) ∙ kept k ne))
        | no ne ↦
            let b : (i == j) ≡ false = ground arith in
            let (t, live_j, is) = read_some p2 j r (reads (omega arith)) in
            let at_j = Live-get_elem? p2.slots j t live_j in
            let (a, at_i) = get_elem?-some p2.slots i (omega arith) in
            let gone_i = others i (λ same. ne (sym same)) ∙ free in
            rw b (
              rw (swap_slots_is p2 i j a t ne at_i at_j sound2) (
                updated (record p2 { slots = swapped p2 i j a t ne at_i at_j sound2 })
                  (swapped-IsSound p2 i j a t ne at_i at_j sound2)
                  (λ pos.
                    swapped_reads p2 i j a t ne at_i at_j sound2 i
                    ∙ (let to : other_end p2 i j a t ne at_i at_j sound2 i ≡ j = ground arith in
                        ap (λ (k : ℕ). read_record k p2) to ∙ reads pos))
                  (λ k ne_k.
                    swapped_reads p2 i j a t ne at_i at_j sound2 k
                    ∙ elsewhere p1 p2 j k ne ne_k (other_end p2 i j a t ne at_i at_j sound2 k)
                        (ground arith) free_j gone_i kept others)))
      ]
  moved p1 free kept range _ sound1 (no_space h) =
      lost p1 (record_of p s) (read-Live p i s live) sound1 free kept h old_shorter
  moved p1 free kept range _ sound1 (no_room n low free_j) = elim (Bool-cases (i == n.slot)) [
    | inl b ↦ rw b (
        no_room_left p1 n (record_of p s) (read-Live p i s live) sound1 free kept low (ground arith)
          old_shorter)
    | inr b ↦ rw b (
        no_room_left p1 (swap_below i n.slot n) (record_of p s) (read-Live p i s live) sound1 free
          kept
          (record {
            enough = low.enough;
            short = low.short;
            how_far = low.how_far;
            grown = low.grown;
          })
          refl old_shorter)
  ]

longer :
    (i : ℕ) (r : List ℕ) (p : Page) (s : SlotEntry)
    → IsSound p
    → Live p.slots i s
    → s.size < length r
    → (q : Page × Bool) → Deleted i p q
    → Updated i r p (moved_to i (insert_record r q.0))
longer i r p s sound live long _ (not_there h) = absurd (some_none (sym (read-Live p i s live) ∙ h))
  where
    some_none : ¬ (some (record_of p s) ≡ none)
    some_none e = cc
longer i r p s sound live long _ (deleted p1 t live_t sound1 free kept same) =
    moved i r p s sound live long p1 free kept
      (omega (arith, get_elem?-lt p.slots i s (Live-get_elem? p.slots i s live))) _ sound1
      (insert_record-Stored r p1 sound1)

-- An update of a sound page leaves it sound, stores the new record under the old index, where it is
-- read unless it is empty, and leaves every other record as it was; or there is no record at the
-- index and nothing changes; or the record is longer than the old one and does not fit the free
-- space of the page without it, and then the old record is lost and the page sound; or it fits the
-- free space and not the room below the records of that page, and then the update returns True with
-- a negative offset in the slot of the index and a page that is longer by the record.
pub update_record-Updated :
    (i : ℕ) (r : List ℕ) (p : Page) → IsSound p → Updated i r p (update_record i r p)
unfolding update_record
update_record-Updated i r p sound = elim (Option-cases (slot_at i p)) [
  | inl e ↦ rw (e, update_record) (no_record (read_free p i e))
  | inr (s, e) ↦ elim (Bool-cases (leb (length r) s.size)) [
    | inl b ↦ shorter i r p s sound e (leb→le _ _ b)
    | inr b ↦
        rw (e, update_record)
          (rw (b, update_record)
            (longer i r p s sound e (leb-false→lt _ _ b) _ (delete_record-Deleted i p sound)))
  ]
]
