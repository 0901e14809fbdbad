-- ===== src/Io.antt =====
-- consensus/basisdb-raft-io: sessions and read index coordination.
pub mod Session
pub mod ReadIndex
pub mod Once
pub mod Rounds
pub mod Quorum
pub mod Examples
