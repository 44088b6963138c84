-- ===== src/Page/Records.antt =====
-- pysql/storage/page.py: the operations on the records of a page.
use Prim.Native.Nat.{bit_or}
use solidity_course_blockcha.Prelude.{
  ℕ, suc, ◌+◌, ◌-◌, ◌*◌, Bool, true, false, Option, none, some, List, [], ◌∷◌, ◌++◌, ◌==◌, ltb, leb,
  if◌then◌else◌, length, get_elem?, set, take, drop, slice, overwrite, max,
}
use solidity_course_blockcha.Page.Header.{
  page_size, header_size, slot_size, dirty, SlotEntry, is_deleted, PageHeader, Page,
}

abbrev pub mark_dirty : PageHeader → PageHeader
mark_dirty h = record h { flags = bit_or h.flags dirty }

-- The first deleted slot, from index `i` on.
unfoldable pub first_deleted : ℕ → List SlotEntry → Option ℕ
first_deleted i [] = none
first_deleted i (s ∷ slots) = if is_deleted s then some i else first_deleted (suc i) slots

-- A page after an insertion below its start: header.data_end and the offset of the slot at the index
-- `slot` are the negative number -below, where `page` has 0. All else is as `page` has it.
pub record NegativePage : Type 0 where
  pub page : Page
  pub slot : ℕ
  pub below : ℕ

-- What a method leaves and returns.
pub data Placed (A : Type 0) : Type 0 where
  at_page : Page → A → Placed A
  below_zero : NegativePage → A → Placed A

-- `b[-k:stop] = r`, where Python counts from the end, not further than to the start; a stop before
-- the start inserts.
unfoldable pub assign_from_end : List ℕ → ℕ → ℕ → List ℕ → List ℕ
assign_from_end b k stop r =
    let start = length b - k in take start b ++ (r ++ drop (max start stop) b)

-- The page with its new bytes, and the slot of the record, an old one or a new one, at `at`.
abbrev pub place_at : ℕ → List ℕ → List ℕ → Page → Option ℕ → Page × ℕ
place_at at bytes r p (some i) = (
  record p {
    bytes = bytes;
    slots = set p.slots i (record { offset = at; size = length r });
    header =
        mark_dirty (record p.header { data_end = at; free_space = p.header.free_space - length r });
  },
  i,
)
place_at at bytes r p none = (
  record p {
    bytes = bytes;
    slots = p.slots ++ record { offset = at; size = length r } ∷ [];
    header = mark_dirty (record p.header {
      num_slots = p.header.num_slots + 1;
      data_end = at;
      free_space = p.header.free_space - (length r + slot_size);
    });
  },
  length p.slots,
)

unfoldable pub place : List ℕ → Page → Option ℕ → Placed (Option ℕ)
place r p reused =
    let at = p.header.data_end - length r in
    let (p', i) = place_at at (overwrite p.bytes at r) r p reused in at_page p' (some i)

unfoldable pub place_below : List ℕ → Page → Option ℕ → Placed (Option ℕ)
place_below r p reused =
    let below = length r - p.header.data_end in
    let bytes = assign_from_end p.bytes below p.header.data_end r in
    let (p', i) = place_at 0 bytes r p reused in
    below_zero (record { page = p'; slot = i; below = below }) (some i)

unfoldable pub insert_record : List ℕ → Page → Placed (Option ℕ)
insert_record r p =
    if ltb p.header.free_space (length r + slot_size)
    then at_page p none
    else if ltb p.header.data_end (length r)
    then place_below r p (first_deleted 0 p.slots)
    else place r p (first_deleted 0 p.slots)

abbrev pub record_of : Page → SlotEntry → List ℕ
record_of p s = slice p.bytes s.offset s.size

abbrev pub live_slot : Option SlotEntry → Option SlotEntry
live_slot none = none
live_slot (some s) = if is_deleted s then none else some s

-- The slot at an index, if it is there and not deleted.
abbrev pub slot_at : ℕ → Page → Option SlotEntry
slot_at i p = live_slot (get_elem? p.slots i)

unfoldable pub read_record : ℕ → Page → Option (List ℕ)
read_record i p = elim (slot_at i p) [ none ↦ none | some s ↦ some (record_of p s) ]

unfoldable pub delete_record : ℕ → Page → Page × Bool
delete_record i p = elim (slot_at i p) [
  | none ↦ (p, false)
  | some s ↦ (
    record p {
      slots = set p.slots i (record { offset = 0; size = 0 });
      header = mark_dirty (record p.header { free_space = p.header.free_space + s.size });
    },
    true,
  )
]

abbrev pub slot_or : Option SlotEntry → SlotEntry
slot_or none = record { offset = 0; size = 0 }
slot_or (some s) = s

-- The slots of two indices change places.
abbrev pub swap_slots : ℕ → ℕ → Page → Page
swap_slots i j p = record p {
  slots = set (set p.slots i (slot_or (get_elem? p.slots j))) j (slot_or (get_elem? p.slots i));
}

abbrev pub swap_below : ℕ → ℕ → NegativePage → NegativePage
swap_below i j n = record n { page = swap_slots i j n.page; slot = i }

-- The end of `update_record`, after the insertion.
abbrev pub moved_to : ℕ → Placed (Option ℕ) → Placed Bool
moved_to i (at_page p none) = at_page p false
moved_to i (at_page p (some j)) = at_page (if i == j then p else swap_slots i j p) true
moved_to i (below_zero n none) = below_zero n false
moved_to i (below_zero n (some j)) = below_zero (if i == j then n else swap_below i j n) true

unfoldable pub update_record : ℕ → List ℕ → Page → Placed Bool
update_record i r p = elim (slot_at i p) [
  | none ↦ at_page p false
  | some s ↦
      if leb (length r) s.size
      then at_page
          (record p {
            bytes = overwrite p.bytes s.offset r;
            slots = set p.slots i (record { offset = s.offset; size = length r });
            header =
                mark_dirty
                  (record p.header { free_space = p.header.free_space + (s.size - length r) });
          })
          true
      else moved_to i (insert_record r (delete_record i p).0)
]

-- The live records, with the indices of their slots from `i` on.
unfoldable pub live_from : ℕ → List ℕ → List SlotEntry → List (ℕ × List ℕ)
live_from i bytes [] = []
live_from i bytes (s ∷ slots) =
    let rest = live_from (suc i) bytes slots in
    if is_deleted s then rest else (i, slice bytes s.offset s.size) ∷ rest

unfoldable pub get_all_records : Page → List (ℕ × List ℕ)
get_all_records p = live_from 0 p.bytes p.slots

unfoldable pub get_num_records : Page → ℕ
get_num_records p = length (get_all_records p)

-- The loop of `compact`: the records are written one below the other, from the end of the page on.
-- It gives the bytes, the slots and where the records begin.
unfoldable pub pack_records :
    List (ℕ × List ℕ) → ℕ → List ℕ → List SlotEntry → List ℕ × List SlotEntry × ℕ
pack_records [] at bytes slots = (bytes, slots, at)
pack_records ((i, r) ∷ rs) at bytes slots =
    pack_records rs (at - length r) (overwrite bytes (at - length r) r)
      (set slots i (record { offset = at - length r; size = length r }))

unfoldable pub compact : Page → Page
compact p =
    let (bytes, slots, at) = pack_records (get_all_records p) page_size p.bytes p.slots in
    record p {
      bytes = bytes;
      slots = slots;
      header = mark_dirty (record p.header {
        data_end = at;
        free_space = at - (header_size + length slots * slot_size);
      });
    }
