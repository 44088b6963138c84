-- ===== src/Page/Codec.antt =====
-- pysql/storage/page.py: a page as bytes, with its checksum. The CRC-32 of zlib is given from outside.
use solidity_course_blockcha.Prelude.{
  ℕ, zero, suc, ◌+◌, ◌*◌, ◌%◌, ◌^◌, Bool, Option, some, List, [], ◌∷◌, ◌++◌, ◌==◌, take, drop,
  replicate, slice, overwrite, be, ◌>>=◌,
}
use solidity_course_blockcha.Page.Header.{
  page_size, header_size, slot_size, PageType, SlotEntry, slot_pack, slot_unpack, PageHeader,
  new_header, header_pack, header_unpack, Page,
}

-- `none` is struct.error, here and below.
unfoldable pub write_header : PageHeader → List ℕ → Option (List ℕ)
write_header h bytes = header_pack h >>= λ r. some (overwrite bytes 0 r)

-- The slots from index `i` on are written.
unfoldable pub write_slots : ℕ → List SlotEntry → List ℕ → Option (List ℕ)
write_slots i [] bytes = some bytes
write_slots i (s ∷ slots) bytes =
    slot_pack s >>= λ r. write_slots (suc i) slots (overwrite bytes (header_size + i * slot_size) r)

-- `count` slots from index `i` on are read.
unfoldable pub read_slots : ℕ → ℕ → List ℕ → Option (List SlotEntry)
read_slots zero i bytes = some []
read_slots (suc count) i bytes =
    slot_unpack (slice bytes (header_size + i * slot_size) slot_size) >>= λ s.
    read_slots count (suc i) bytes >>= λ slots. some (s ∷ slots)

unfoldable pub from_bytes : List ℕ → Option Page
from_bytes input =
    let bytes = take page_size input in
    header_unpack bytes >>= λ h. read_slots h.num_slots 0 bytes >>= λ slots.
    some (record { bytes = bytes; header = h; slots = slots })

-- A fresh page. Its header can always be written; the other case does not occur for an id that fits.
unfoldable pub new_page : ℕ → PageType → Option Page
new_page page_id page_type =
    let h = new_header page_id page_type in
    write_header h (replicate page_size 0) >>= λ bytes.
    some (record { bytes = bytes; header = h; slots = [] })

module _ (crc32 : List ℕ → ℕ) where
  unfoldable pub checksum_of : List ℕ → ℕ
  checksum_of bytes = crc32 (take 28 bytes ++ drop header_size bytes) % 2 ^ 32

  -- The page after `to_bytes`, which returns its bytes.
  unfoldable pub to_bytes : Page → Option Page
  to_bytes p = write_header p.header p.bytes >>= λ b. write_slots 0 p.slots b >>= λ bytes.
      let checksum = checksum_of bytes in
      some (record p {
        bytes = overwrite bytes 28 (be 4 checksum);
        header = record p.header { checksum = checksum };
      })

  unfoldable pub verify_checksum : Page → Bool
  verify_checksum p = p.header.checksum == checksum_of p.bytes
