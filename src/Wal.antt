-- ===== src/Wal.antt =====
-- The crate `crates/wal`: the write-ahead log.
pub mod Error
pub mod Entry
pub mod Header
pub mod Dirty
pub mod Ring
