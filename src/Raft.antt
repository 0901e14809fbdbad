-- ===== src/Raft.antt =====
-- consensus/basisdb-raft: the Raft state machine, one module for each of its source files.
pub mod NodeSet
pub mod Membership
pub mod Log
pub mod Event
pub mod Core
pub mod Follower
pub mod PreCandidate
pub mod Candidate
pub mod Leader
pub mod Node
pub mod Examples
