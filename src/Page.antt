-- ===== src/Page.antt =====
-- pysql/storage/page.py: slotted pages and the file of pages. `Header` has the headers and their
-- bytes, `Records` the operations on records, `Codec` a page as bytes, `Disk` the file. The other
-- modules prove: `Layout` and `Accounts` are about where records lie and what the counters count,
-- `Inserts`, `Swaps` and `Updates` about single operations, `Erasures`, `Moves` and `Compaction`
-- about compactions, `Runs` about sequences of operations, `Encoding` and `RoundTrip` about pages
-- that are written and read back, `DiskLaws` about the file as the buffer pool's disk.
pub mod Header
pub mod Records
pub mod Codec
pub mod Layout
pub mod Accounts
pub mod Inserts
pub mod Swaps
pub mod Updates
pub mod Erasures
pub mod Moves
pub mod Compaction
pub mod Encoding
pub mod RoundTrip
pub mod Runs
pub mod Disk
pub mod DiskLaws
