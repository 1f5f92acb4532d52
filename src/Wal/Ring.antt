-- ===== src/Wal/Ring.antt =====
-- `crates/wal/src/ring.rs`: the ring of sectors behind two header blocks. `State` has the record and
-- its geometry, `Monad` the calls on it and on the device with their errors, `Open`, `Append`,
-- `Checkpoint` and `Iter` the operations. The children of `Refine` prove that a ring is the queue of
-- its entries.
pub mod State
pub mod Monad
pub mod Open
pub mod Append
pub mod Checkpoint
pub mod Iter
pub mod Refine
mod Tests
