-- ===== src/Wal/Error.antt =====
-- `crates/wal/src/error.rs`: the errors that the modelled code can return.
use mimisbrunnr.Base.{ℕ, List}
use mimisbrunnr.Storage.Error.{StorageError}

-- `panic_lsn_overflow` is the panic of `append_raw`, which the source raises in place of an error.
pub data WalError : Type 0 where
  storage : StorageError → WalError
  invalid_magic : List ℕ → List ℕ → WalError
  crc_mismatch : ℕ → ℕ → WalError
  payload_too_large : ℕ → ℕ → WalError
  ring_full : ℕ → ℕ → WalError
  lsn_overflow : WalError
  no_valid_header : WalError
  unsupported_format_version : ℕ → WalError
  invalid_size : ℕ → WalError
  encryption_unsupported : WalError
  compression_unsupported : WalError
  read_only : WalError
  panic_lsn_overflow : WalError
