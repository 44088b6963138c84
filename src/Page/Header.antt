-- ===== src/Page/Header.antt =====
-- pysql/storage/page.py: the page's header and its slot directory, and their bytes.
use solidity_course_blockcha.Prelude.{
  ℕ, zero, suc, ◌-◌, Bool, Option, none, some, List, [], ◌∷◌, ◌==◌, take, Format, unsigned, signed,
  pack, unpack, ◌>>=◌,
}

abbrev pub page_size : ℕ
page_size = 4096

abbrev pub header_size : ℕ
header_size = 32

abbrev pub slot_size : ℕ
slot_size = 4

abbrev pub invalid_page_id : ℕ
invalid_page_id = 0xFFFF_FFFF

pub data PageType : Type 0 where
  free heap_data btree_internal btree_leaf overflow metadata : PageType

abbrev pub type_code : PageType → ℕ
type_code free = 0
type_code heap_data = 1
type_code btree_internal = 2
type_code btree_leaf = 3
type_code overflow = 4
type_code metadata = 5

-- `PageType(code)`; `none` is its ValueError.
abbrev pub type_of : ℕ → Option PageType
type_of zero = some free
type_of (suc zero) = some heap_data
type_of (suc (suc zero)) = some btree_internal
type_of (suc (suc (suc zero))) = some btree_leaf
type_of (suc (suc (suc (suc zero)))) = some overflow
type_of (suc (suc (suc (suc (suc zero))))) = some metadata
type_of (suc (suc (suc (suc (suc (suc n)))))) = none

abbrev pub clean : ℕ
clean = 0

abbrev pub dirty : ℕ
dirty = 1

-- `offset` is from the start of the page.
pub record SlotEntry : Type 0 where
  pub offset : ℕ
  pub size : ℕ

abbrev pub is_deleted : SlotEntry → Bool
is_deleted s = s.size == 0

abbrev pub slot_format : List Format
slot_format = unsigned 2 ∷ unsigned 2 ∷ []

unfoldable pub slot_pack : SlotEntry → Option (List ℕ)
slot_pack s = pack slot_format (s.offset ∷ s.size ∷ [])

abbrev pub slot_fields : List ℕ → Option SlotEntry
slot_fields (offset ∷ size ∷ []) = some (record { offset = offset; size = size })
slot_fields _ = none

unfoldable pub slot_unpack : List ℕ → Option SlotEntry
slot_unpack bytes = unpack slot_format (take slot_size bytes) >>= slot_fields

pub record PageHeader : Type 0 where
  pub page_id : ℕ
  pub page_type : PageType
  pub flags : ℕ
  pub num_slots : ℕ
  pub free_space : ℕ
  pub data_end : ℕ
  pub next_page : ℕ
  pub prev_page : ℕ
  pub lsn : ℕ
  pub checksum : ℕ

abbrev pub new_header : ℕ → PageType → PageHeader
new_header page_id page_type = record {
  page_id = page_id;
  page_type = page_type;
  flags = clean;
  num_slots = 0;
  free_space = page_size - header_size;
  data_end = page_size;
  next_page = invalid_page_id;
  prev_page = invalid_page_id;
  lsn = 0;
  checksum = 0;
}

-- ">IBBHHHIIqI"
abbrev pub header_format : List Format
header_format =
    unsigned 4
    ∷ unsigned 1
    ∷ unsigned 1
    ∷ unsigned 2
    ∷ unsigned 2
    ∷ unsigned 2
    ∷ unsigned 4
    ∷ unsigned 4
    ∷ signed 8
    ∷ unsigned 4
    ∷ []

abbrev pub header_values : PageHeader → List ℕ
header_values h =
    h.page_id
    ∷ type_code h.page_type
    ∷ h.flags
    ∷ h.num_slots
    ∷ h.free_space
    ∷ h.data_end
    ∷ h.next_page
    ∷ h.prev_page
    ∷ h.lsn
    ∷ h.checksum
    ∷ []

unfoldable pub header_pack : PageHeader → Option (List ℕ)
header_pack h = pack header_format (header_values h)

abbrev pub header_fields : List ℕ → Option PageHeader
header_fields
      (page_id ∷ code ∷ flags ∷ num_slots ∷ free_space ∷ data_end ∷ next_page ∷ prev_page ∷ lsn
        ∷ checksum ∷ []) =
    type_of code >>= λ page_type. some (record {
      page_id = page_id;
      page_type = page_type;
      flags = flags;
      num_slots = num_slots;
      free_space = free_space;
      data_end = data_end;
      next_page = next_page;
      prev_page = prev_page;
      lsn = lsn;
      checksum = checksum;
    })
header_fields _ = none

unfoldable pub header_unpack : List ℕ → Option PageHeader
header_unpack bytes = unpack header_format (take header_size bytes) >>= header_fields

pub record Page : Type 0 where
  pub bytes : List ℕ
  pub header : PageHeader
  pub slots : List SlotEntry
