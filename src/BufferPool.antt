-- ===== src/BufferPool.antt =====
-- pysql/storage/buffer_pool.py: the page cache. `Pool` has the state and the clock sweep, `Methods`
-- the methods. The other modules prove: `Sweep` and `Victims` when the search gives a frame,
-- `Coherence` what ties the page table to the frames, `Keeps` what the pool relies on in its disk,
-- `Evictions` what fetch_page and `Creations` what new_page
-- does, `Runs` that sequences of calls keep the pool coherent.
pub mod Pool
pub mod Methods
pub mod Sweep
pub mod Victims
pub mod Coherence
pub mod Keeps
pub mod Evictions
pub mod Creations
pub mod Runs
