-- ===== src/Raft.antt =====
-- pysql/raft.py: one Raft node. `Node` has the messages, the state and the application of committed
-- entries, `Follower` the two handlers of remote calls, `Leader` the election and the leader's
-- methods. The other modules prove: `Steps` takes the methods together as a relation, `Voting` is
-- about elections, `Matching` and `Prefix` about the log, `Commits` about committed entries.
pub mod Node
pub mod Follower
pub mod Leader
pub mod Steps
pub mod Voting
pub mod Matching
pub mod Prefix
pub mod Emptied
pub mod Commits
pub mod Consistency
