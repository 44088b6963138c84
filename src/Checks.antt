-- ===== src/Checks.antt =====
-- Runs of the definitions at small inputs, and the theorems at inputs that meet their hypotheses.
mod Raft
mod Mvcc
mod BufferPool
mod Distributed
mod Page
mod Wal
mod Types
mod Heap
