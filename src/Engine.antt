-- ===== src/Engine.antt =====
-- The crate `crates/engine`: its clock.
pub mod Clock
