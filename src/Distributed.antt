-- ===== src/Distributed.antt =====
-- pysql/distributed.py: the two-phase commit coordinator and the router of keys. `Coordinator` has the
-- code. The other modules prove: `Visits` is about the loops over nodes, `Commits` about what a commit
-- and an abort leave on the nodes, `Outcomes` about the other nodes and the coordinator's books,
-- `Queries` about a query on all nodes.
pub mod Coordinator
pub mod Visits
pub mod Commits
pub mod Outcomes
pub mod Queries
