-- ===== src/Checks/Page.antt =====
-- pysql/storage/page.py at small pages: two records, of three bytes and of two. The checksum is a
-- length here.
use solidity_course_blockcha.Prelude.{
  ℕ, zero, suc, ◌+◌, ◌*◌, ◌≤◌, ◌≡◌, refl, Bool, true, false, Option, none, some, List, [], ◌∷◌,
  arith, length, overwrite, be, pack, unpack,
}
use solidity_course_blockcha.BufferPool.Pool.{Write, wrote, failed}
use solidity_course_blockcha.Page.Header.{
  heap_data, Page, header_size, slot_size, header_pack, header_unpack, slot_pack, slot_unpack,
}
use solidity_course_blockcha.Page.Records.{
  Placed, at_page, below_zero, first_deleted, assign_from_end, place, place_below, insert_record,
  read_record, delete_record, update_record, live_from, get_all_records, get_num_records,
  pack_records, compact,
}
use solidity_course_blockcha.Page.Codec.{
  write_header, write_slots, read_slots, from_bytes, new_page, checksum_of, to_bytes,
  verify_checksum,
}
use solidity_course_blockcha.Page.Accounts.{IsSound}
use solidity_course_blockcha.Page.Inserts.{Stored, insert_record-Stored}
use solidity_course_blockcha.Page.Updates.{Updated, update_record-Updated}
use solidity_course_blockcha.Page.Compaction.{Compacted, compact-Compacted}
use solidity_course_blockcha.Page.RoundTrip.{ReadBack, from_bytes-to_bytes}
use solidity_course_blockcha.Page.Runs.{
  inserts, updates, deletes, compacts, Operation, perform_all, RunOf, goes_on, ends, new_page-IsNew,
  perform_all-RunOf, NoGap, insert_record-NoGap,
}
use solidity_course_blockcha.Page.Disk.{
  File, open_file, read_page, slots_until, half_packed, write_page, allocate_page,
}

program : Unit {0}
unfolding overwrite be pack unpack header_pack header_unpack slot_pack slot_unpack first_deleted
    place assign_from_end place_below insert_record read_record delete_record update_record
    live_from get_all_records get_num_records pack_records compact write_header write_slots
    read_slots from_bytes new_page checksum_of to_bytes verify_checksum open_file read_page
    slots_until half_packed write_page allocate_page
program = tt

abbrev is_some : {A : Type 0} → Option A → Bool
is_some none = false
is_some (some a) = true

value_of : {A : Type 0} (o : Option A) → is_some o ≡ true → (a : A) × (o ≡ some a)
value_of none h = cc
value_of (some a) h = (a, refl)

made : (p : Page) × (new_page 7 heap_data ≡ some p)
unfolding program
made = value_of (new_page 7 heap_data) refl

-- The page after operations that leave no negative offset.
abbrev page_or : Page → Option Page → Page
page_or p none = p
page_or p (some q) = q

sound_or :
    {p : Page} {os : List Operation} {q : Option Page}
    → IsSound p
    → RunOf p os q
    → IsSound (page_or p q)
sound_or sound (goes_on os q s) = s
sound_or sound (ends before o rest q _ _ _) = sound

abbrev two_inserts : List Operation
two_inserts = inserts (1 ∷ 2 ∷ 3 ∷ []) ∷ inserts (4 ∷ 5 ∷ []) ∷ []

abbrev two_records : Page
two_records = page_or made.0 (perform_all two_inserts made.0)

two_records-IsSound : IsSound two_records
two_records-IsSound =
    sound_or (new_page-IsNew 7 heap_data made.0 made.1).sound
      (perform_all-RunOf 7 heap_data made.0 two_inserts made.1)

reads_second : read_record 1 two_records ≡ some (4 ∷ 5 ∷ [])
unfolding program value_of made
reads_second = refl

insert_record-Stored_example : Stored (6 ∷ []) two_records (insert_record (6 ∷ []) two_records)
insert_record-Stored_example = insert_record-Stored (6 ∷ []) two_records two_records-IsSound

update_record-Updated_example :
    Updated 0 (1 ∷ 2 ∷ 3 ∷ 4 ∷ []) two_records (update_record 0 (1 ∷ 2 ∷ 3 ∷ 4 ∷ []) two_records)
update_record-Updated_example =
    update_record-Updated 0 (1 ∷ 2 ∷ 3 ∷ 4 ∷ []) two_records two_records-IsSound

compact-Compacted_example : Compacted two_records two_records-IsSound (compact two_records)
compact-Compacted_example = compact-Compacted two_records two_records-IsSound

abbrev four_calls : List Operation
four_calls = inserts (1 ∷ []) ∷ deletes 0 ∷ compacts ∷ updates 0 (2 ∷ []) ∷ []

perform_all-RunOf_example : RunOf made.0 four_calls (perform_all four_calls made.0)
perform_all-RunOf_example = perform_all-RunOf 7 heap_data made.0 four_calls made.1

two_records-NoGap : NoGap two_records
unfolding program value_of made
two_records-NoGap = refl

insert_record-NoGap_example :
    (p : Page) × (i : Option ℕ) × (insert_record (6 ∷ []) two_records ≡ at_page p i) × NoGap p
insert_record-NoGap_example = insert_record-NoGap (6 ∷ []) two_records two_records-NoGap

written : (p : Page) × (to_bytes length two_records ≡ some p)
unfolding program value_of made
written = value_of (to_bytes length two_records) refl

two_records_fit : header_size + length two_records.slots * slot_size ≤ two_records.header.data_end
unfolding program value_of made
two_records_fit = omega arith

from_bytes-to_bytes_example :
    ReadBack length two_records written.0
    × ((i : ℕ) → read_record i written.0 ≡ read_record i two_records)
from_bytes-to_bytes_example =
    from_bytes-to_bytes length two_records written.0 two_records-IsSound two_records_fit written.1

big : ℕ → List ℕ
big zero = []
big (suc n) = 1 ∷ big n

abbrev after : List Operation → Page
after os = page_or made.0 (perform_all os made.0)

-- A record that fills the page, deleted and not compacted, leaves no room below: the next record
-- starts before the page, though the free space says that it fits.
abbrev emptied : Page
emptied = after (inserts (big 4000) ∷ deletes 0 ∷ [])

abbrev how_far_below : Placed (Option ℕ) → Option (ℕ × ℕ)
how_far_below (at_page p i) = none
how_far_below (below_zero n i) = some (n.below, length (n.page).bytes)

insert_below_zero : how_far_below (insert_record (big 4000) emptied) ≡ some (3904, 8096)
unfolding program value_of made big
insert_below_zero = refl

-- The same with shorter records: the second slot is written over the first record.
abbrev crowded : Page
crowded = after (inserts (big 4040) ∷ deletes 0 ∷ inserts (big 20) ∷ inserts (8 ∷ []) ∷ [])

abbrev read_first : Option Page → Option (List ℕ)
read_first none = none
read_first (some p) = read_record 0 p

record_overwritten : read_first (to_bytes length crowded) ≡ some (0 ∷ 35 ∷ 0 ∷ 1 ∷ big 16)
unfolding program value_of made big
record_overwritten = refl

record_before : read_first (some crowded) ≡ some (big 20)
unfolding program value_of made big
record_before = refl

-- An empty record cannot be read: its slot counts as deleted.
empty_record : read_record 0 (after (inserts [] ∷ [])) ≡ none
unfolding program value_of made
empty_record = refl

-- A page that is allocated, given a record and written is read back with the record.
abbrev allocated : File × Option Page
allocated = allocate_page length heap_data (open_file [])

abbrev disk_after : Write File Page → File
disk_after (wrote f p) = f
disk_after (failed p) = open_file []

abbrev with_record : Page
with_record = page_or made.0 (perform_all (inserts (5 ∷ 6 ∷ []) ∷ []) (page_or made.0 allocated.1))

record_read_back :
    read_first (read_page 0 (disk_after (write_page length with_record allocated.0)))
    ≡ some (5 ∷ 6 ∷ [])
unfolding program value_of made
record_read_back = refl
