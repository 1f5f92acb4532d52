-- ===== src/Wal/Ring/State.antt =====
-- `struct Wal` of `crates/wal/src/ring.rs`, its geometry and its accessors.
use mimisbrunnr.Base.{ℕ, ◌+◌, ◌-◌, ◌*◌, ◌/◌, ◌%◌, Bool, ◌||◌, not, ◌==◌, ltb}
use mimisbrunnr.Storage.Block.{block_size}
use mimisbrunnr.Wal.Header.{WalHeader}

pub record Wal : Type 0 where
  pub base : ℕ
  pub size : ℕ
  pub header : WalHeader
  pub active_slot : ℕ
  pub read_only : Bool

abbrev pub header_slot_a : ℕ
header_slot_a = 0

abbrev pub header_slot_b : ℕ
header_slot_b = 1

unfoldable pub data_sectors : Wal → ℕ
data_sectors w = (w.size - 2 * block_size) / block_size

unfoldable pub data_capacity : Wal → ℕ
unfolding data_sectors
data_capacity w = data_sectors w * block_size

unfoldable pub data_offset : Wal → ℕ
data_offset w = w.base + 2 * block_size

unfoldable pub header_slot_offset : Wal → ℕ → ℕ
header_slot_offset w slot = w.base + slot * block_size

-- `size == 0 || !size.is_multiple_of(BLOCK_SIZE) || size < 3 * BLOCK_SIZE`
unfoldable pub size_is_invalid : ℕ → Bool
size_is_invalid size = size == 0 || not (size % block_size == 0) || ltb size (3 * block_size)
