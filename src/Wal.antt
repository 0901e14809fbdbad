-- ===== src/Wal.antt =====
-- basisdb-wal: the segmented write-ahead log.
pub mod Record
pub mod Bytes
pub mod Format
pub mod RoundTrip
pub mod Segment
pub mod Log
pub mod Reader
pub mod Scan
pub mod Torn
pub mod Total
pub mod Recovery
pub mod Refinement
pub mod Append
pub mod Examples
