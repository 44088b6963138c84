-- ===== src/Page/Disk.antt =====
-- pysql/storage/page.py: the file of pages. The file is its bytes; what the operating system does is
-- not modelled.
use solidity_course_blockcha.Prelude.{
  ℕ, suc, ◌+◌, ◌-◌, ◌*◌, ◌/◌, ◌>>=◌, ◌∷◌, Option, none, some, List, [], ◌++◌, leb, if◌then◌else◌,
  length, replicate, slice, overwrite,
}
use solidity_course_blockcha.BufferPool.Pool.{DiskManager, Write, wrote, failed}
use solidity_course_blockcha.Page.Header.{
  page_size, header_size, slot_size, PageType, SlotEntry, slot_pack, Page,
}
use solidity_course_blockcha.Page.Codec.{from_bytes, write_header, new_page, to_bytes}

pub record File : Type 0 where
  pub content : List ℕ
  pub num_pages : ℕ

-- A file that is there already; `length` is its size.
unfoldable pub open_file : List ℕ → File
open_file content = record { content = content; num_pages = length content / page_size }

abbrev pub padded : List ℕ → List ℕ
padded block = block ++ replicate (page_size - length block) 0

-- `none` is a ValueError or a struct.error.
unfoldable pub read_page : ℕ → File → Option Page
read_page id f =
    if leb f.num_pages id
    then none
    else from_bytes (padded (slice f.content (id * page_size) page_size))

-- The bytes after the slots from index `i` on were written, up to the first that cannot be packed.
unfoldable pub slots_until : ℕ → List SlotEntry → List ℕ → List ℕ
slots_until i [] bytes = bytes
slots_until i (s ∷ slots) bytes = elim (slot_pack s) [
  | none ↦ bytes
  | some r ↦ slots_until (suc i) slots (overwrite bytes (header_size + i * slot_size) r)
]

-- The page where `to_bytes` raises struct.error.
unfoldable pub half_packed : Page → Page
half_packed p = elim (write_header p.header p.bytes) [
  | none ↦ p
  | some bytes ↦ record p { bytes = slots_until 0 p.slots bytes }
]

module _ (crc32 : List ℕ → ℕ) where
  -- A page that cannot be packed raises struct.error before the file is opened.
  unfoldable pub write_page : Page → File → Write File Page
  write_page p f = elim (to_bytes crc32 p) [
    | none ↦ failed (half_packed p)
    | some p' ↦
        wrote (record f { content = overwrite f.content ((p.header).page_id * page_size) p'.bytes })
          p'
  ]

  -- The new page is written to the end of the file; `none` is a struct.error.
  unfoldable pub allocate_page : PageType → File → File × Option Page
  allocate_page page_type f =
      let more = record f { num_pages = suc f.num_pages } in
      elim (new_page f.num_pages page_type >>= to_bytes crc32) [
        | none ↦ (more, none)
        | some p ↦ (record more { content = f.content ++ p.bytes }, some p)
      ]

  -- The disk manager of the buffer pool.
  abbrev pub file_disk : PageType → DiskManager File Page
  file_disk page_type = record {
    page_id_of = λ p. (p.header).page_id;
    num_pages = λ f. f.num_pages;
    read_page = read_page;
    write_page = write_page;
    allocate_page = allocate_page page_type;
  }
