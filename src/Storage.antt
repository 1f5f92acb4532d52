-- ===== src/Storage.antt =====
-- The crate `crates/storage`: block headers, references, the device, and the bucket allocator.
pub mod Error
pub mod Block
pub mod Device
pub mod Freespace
pub mod Alloc
pub mod Allocator
