-- ===== src/Heap.antt =====
-- pysql/storage/heap.py: the records of a table as bytes. `Serializer` has RecordSerializer; `Bitmaps` is
-- about the null bitmap, `RoundTrip` about records that are written and read back.
pub mod Serializer
pub mod Bitmaps
pub mod RoundTrip
