-- ===== src/Wal.antt =====
-- pysql/storage/wal.py: the write-ahead log. `Record` has the records and their bytes, `Manager` the
-- log manager. The other modules prove: `Reading` is about what deserialize and recover make of a
-- log file, `Encoding` about what the file determines, `Recovery` about the analysis of records,
-- `Appends`, `Flushes` and `Runs` about calls, for which `Log` has the specification.
pub mod Record
pub mod Manager
pub mod Reading
pub mod Encoding
pub mod Recovery
pub mod Log
pub mod Appends
pub mod Flushes
pub mod Runs
