-- ===== src/Lib.antt =====
-- PySQLEngine: models of the parts of pysql/ and proofs about them.
--
-- The program is a SQL database in Python. A text goes through the lexer, the parser, the planner
-- and the executor, which works on heap files and B+ trees; these are built on slotted pages in a
-- buffer pool, with a write-ahead log beside them. The MVCC manager keeps the versions that
-- transactions write; Raft nodes and a two-phase commit coordinator join several databases.
--
-- Prelude has what the other modules share: Boolean tests on numbers, lists by position, byte
-- strings, and Python's dict as an association list in the order of insertion.
--
-- Raft is pysql/raft.py. Node has the records LogEntry, RequestVoteArgs, RequestVoteReply,
-- AppendEntriesArgs, AppendEntriesReply and RaftNode, and _apply_entries; Follower has
-- handle_request_vote and handle_append_entries; Leader has start_election, promote_to_leader,
-- propose and update_leader_commit. Each method is a function from the node to the node after it
-- and what it returns, where index_error stands for the IndexError of a read outside the log.
-- Readings of the clock and the random timeout are arguments, terms and indices natural numbers.
-- The callback of the state machine is given from outside: the field applied lists the commands
-- handed to it. The loop of _apply_entries recurs on the rounds left, which are as many as
-- last_applied is below commit_index, so no bound is chosen.
--
-- Mvcc is pysql/mvcc.py. Version has VersionRecord, TransactionSnapshot, Transaction and
-- is_visible_to; Manager has begin_transaction, commit_transaction and abort_transaction; Store
-- has write_version, read_version and delete_version; Collect has garbage_collect and get_stats.
-- A transaction is an object that the manager and its callers share, so the state holds all of
-- them under their ids. A version and those that prev_version leads to are a list, the newest
-- first. Keys are of any type with a decidable equality and rows of any type. The lock makes each
-- method one step.
--
-- BufferPool is pysql/storage/buffer_pool.py. Pool has FrameHeader, BufferPool and
-- _find_victim_frame; Methods has the public methods but get_stats, which changes nothing. The
-- disk manager is an interface, the record DiskManager, with what the pool relies on stated as
-- IsDisk: the disks that are sound, the pages that are good, and a capacity. A result is beside
-- the pool as it is after the call, also where an exception, a struct.error of the disk too,
-- leaves the call half done. A write packs the page, which gets its checksum. The clock sweep
-- recurs on its rounds, twice the number of frames as in the source. A page is a value: what
-- callers change in a page that they hold is a step of its own.
--
-- Page is pysql/storage/page.py. Header has PageType, SlotEntry and PageHeader with their packed
-- bytes; Records the operations of Page on records; Codec from_bytes, to_bytes and the checksum,
-- whose CRC-32 is given from outside; Disk the DiskManager over the bytes of one file, which
-- fills the buffer pool's interface. The field bytes is _data, slots is _slots; the size of a
-- slot is its length. Bytes are numbers; Prelude has slices, slice assignment and the struct
-- formats, where `none` stands for struct.error. Where an insertion starts before the page, its
-- offset and data_end are negative in the source: the page is then a NegativePage, with how far
-- below the start they are and with the bytes that Python's slice assignment makes; it takes no
-- further calls. A page whose bytes cannot be packed is left as to_bytes leaves it, half_packed.
--
-- Wal is pysql/storage/wal.py. Record has LogRecordType and LogRecord with serialize and
-- deserialize; Manager has the methods of WALManager over the bytes of its file, where what is
-- written is in the file at once, and recover with its analysis. Log has the specification, a log
-- as the list of the requested records. deserialize_by takes the header's size as an argument,
-- since the source's LOG_HEADER_SIZE is not that of the format; read_all has as many rounds as
-- the file has bytes, of which every record takes one at least.
--
-- Types is pysql/types.py. Value has the values and the types; a value of Python is one of
-- Value's constructors. Classes has a TypeClass for each class of data types, Storage gives a
-- type's class. UTF-8, rstrip, the 64 bits of a floating-point number and the built-in
-- conversions are given from outside, as the record Python with its laws IsPython. Coercion has
-- can_coerce, coerce_value and resolve_common_type.
--
-- Heap is the RecordSerializer of pysql/storage/heap.py: the bytes of a row, with the null
-- bitmap. A bit of a byte is read and set by recursion on its position.
--
-- Distributed is pysql/distributed.py. Coordinator has HashPartitioner.get_shard and the methods
-- of DistributedCoordinator: prepare and checkpoint_all are the loops of execute_2pc, gather that
-- of execute_scatter_gather. The databases of the nodes are an interface, the record Database:
-- their states, what execute gives or that it raises, and whether checkpoint returns. The MD5
-- digest of a key is an argument. A transaction's state object is the one that the coordinator's
-- books have.
--
-- Checks runs the definitions at small inputs.
--
-- Not modelled: the catalog's JSON files, the command line and the engine's glue, which only call
-- the other parts; HeapFile, which places rows in pages, and type_from_string, which parses names
-- of types; floating-point readings of the clock, which no method compares; and the parts of the
-- SQL front end and the storage engine that have no module here.
pub mod Prelude
pub mod Raft
pub mod Mvcc
pub mod Page
pub mod Wal
pub mod Types
pub mod Heap
pub mod BufferPool
pub mod Distributed
mod Checks
