-- ===== src/Storage/Device.antt =====
-- The trait `BlockDevice` of `crates/storage/src/block_device.rs` as `FileBlockDevice` of
-- `file_device.rs` implements it: a file of `capacity` bytes, which may be open for reading only. A
-- failure of the file system itself is left out.
pub mod Laws
pub mod Image
