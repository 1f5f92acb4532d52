-- ===== src/Index.antt =====
-- `crates/index`: the blocks of the key-value hash index, the range index, and the stores of the tags.
pub mod KvBucket
pub mod KvDirectory
pub mod NormalisedKey
pub mod Bitmap
pub mod RangeIndex
pub mod TagStore
