-- ===== src/Storage/Error.antt =====
-- `crates/storage/src/error.rs`: the errors that the modelled code can return.
use mimisbrunnr.Base.{ℕ, List}

pub data StorageError : Type 0 where
  invalid_magic : List ℕ → List ℕ → StorageError
  invalid_block_kind : ℕ → StorageError
  invalid_bucket_data_type : ℕ → StorageError
  crc_mismatch : ℕ → ℕ → StorageError
  out_of_bounds : ℕ → ℕ → ℕ → StorageError
  read_only : StorageError
  allocator_exhausted : ℕ → StorageError
  stale_block_ref : ℕ → ℕ → StorageError
  cross_disk_block_ref : ℕ → ℕ → StorageError
  free_of_unallocated_bucket : ℕ → StorageError
