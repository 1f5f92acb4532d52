-- ===== src/Wal/Ring/Refine.antt =====
-- The ring of `crates/wal/src/ring.rs` against the queue of the entries in it.
pub mod Geometry
pub mod Sector
pub mod Replay
pub mod Window
pub mod Flush
pub mod Queue
pub mod FlushHolds
pub mod AppendStep
pub mod Append
pub mod Reclaim
pub mod Checkpoint
pub mod Durable
pub mod Recover
pub mod Format
pub mod Refuse
pub mod History
