-- ===== src/Raft/Examples.antt =====
-- The theorems at concrete inputs, and the inputs.
mod Votes
mod Logs
mod Configurations
mod Replication
mod Reads
mod JointCommit
mod PreVotes
