-- ===== src/Meta.antt =====
-- `crates/meta`: the tables of objects and their address translation.
pub mod Radix
