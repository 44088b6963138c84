-- ===== src/Page/DiskLaws.antt =====
-- The file of pages is a disk manager as the buffer pool relies on it.
use solidity_course_blockcha.Prelude.{
  ℕ, suc, ◌*◌, ◌<◌, ◌≡◌, some, List, ◌++◌, length, slice, overwrite,
}
use solidity_course_blockcha.Page.Header.{page_size, PageType, Page}
use solidity_course_blockcha.Page.Codec.{from_bytes, to_bytes}
use solidity_course_blockcha.Page.Accounts.{IsSound}
use solidity_course_blockcha.Page.RoundTrip.{ReadBack}
use solidity_course_blockcha.Page.Runs.{IsNew}
use solidity_course_blockcha.Page.Disk.{File}

abbrev pub block : List ℕ → ℕ → List ℕ
block content id = slice content (id * page_size) page_size

-- A sound page that can be packed.
pub record IsWritable (crc32 : List ℕ → ℕ) (p : Page) : Type 0 where
  pub sound : IsSound p
  pub packs : (p' : Page) × (to_bytes crc32 p ≡ some p')

-- The file is its pages, each with its place as its id.
pub record IsFile (crc32 : List ℕ → ℕ) (f : File) : Type 0 where
  pub whole : length f.content ≡ f.num_pages * page_size
  pub pages :
      (id : ℕ)
      → id < f.num_pages
      → (p : Page) × (from_bytes (block f.content id) ≡ some p)
        × ((p.header).page_id ≡ id)
        × IsWritable crc32 p

module _ (crc32 : List ℕ → ℕ) where
  module _ (f : File) (p p' : Page) (s : IsFile crc32 f) (small : (p.header).page_id < f.num_pages)
      (back : ReadBack crc32 p p') (fine : IsWritable crc32 p') where
    -- The file with the page over the one with its id.
    abbrev over : File
    over = record f { content = overwrite f.content ((p.header).page_id * page_size) p'.bytes }

  module _ (f : File) (t : PageType) (p p' : Page) (s : IsFile crc32 f)
      (new : IsNew f.num_pages t p) (back : ReadBack crc32 p p') (fine : IsWritable crc32 p') where
    -- The file with the page at its end.
    abbrev longer : File
    longer = record { content = f.content ++ p'.bytes; num_pages = suc f.num_pages }
