-- ===== src/Index/RangeIndex.antt =====
-- The range index of `crates/index/src/range_index.rs`.
pub mod KeyOrder
pub mod Map
pub mod Laws
pub mod Ints
mod Tests
