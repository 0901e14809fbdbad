-- ===== src/Kv.antt =====
-- basisdb-node: the replicated key-value state, and what a node does around the Raft library.
pub mod Names
pub mod Types
pub mod Command
pub mod Browse
pub mod Pages
pub mod Rule
pub mod Valid
pub mod Etag
pub mod Examples
pub mod Condition
pub mod Once
pub mod Cached
pub mod Settled
pub mod Retry
