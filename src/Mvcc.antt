-- ===== src/Mvcc.antt =====
-- pysql/mvcc.py: multi-version concurrency control. `Version` has the records and the visibility
-- test, `Manager` the manager's state and the life of a transaction, `Store` writes, reads and
-- deletes, `Collect` the collection of old versions. The other modules prove: `Visibility` is about
-- the test, `Lifecycle` and `Commits` about the sets of transactions, `Runs` about sequences of
-- calls, `Outcomes` and `Reads` about what a transaction reads across writes, `Conflicts` about the
-- detection of conflicting writes, `Aborts` about aborts.
pub mod Version
pub mod Manager
pub mod Store
pub mod Collect
pub mod Visibility
pub mod Lifecycle
pub mod Commits
pub mod Runs
pub mod Outcomes
pub mod Reads
pub mod Conflicts
pub mod Aborts
