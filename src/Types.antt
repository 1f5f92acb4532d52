-- ===== src/Types.antt =====
-- The crate `crates/types`: hybrid logical clock timestamps, values, object ids and queries.
pub mod Timestamp
pub mod Value
pub mod ObjectId
pub mod Query
pub mod Assertion
