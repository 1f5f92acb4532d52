-- ===== src/Wal/Ring/Checkpoint.antt =====
-- `checkpoint` of `crates/wal/src/ring.rs`. Its loop takes fuel; each round takes a sector off
-- `used_bytes`, so that number, plus one, is enough where it is a multiple of the sector size, as on every
-- ring that holds entries.
use mimisbrunnr.Base.{
  ℕ, zero, suc, ◌+◌, ◌-◌, ◌%◌, ◌^◌, List, take, Bool, not, ltb, ◌==◌, if◌then◌else◌,
}
use mimisbrunnr.Storage.Block.{block_size}
use mimisbrunnr.Wal.Error.{read_only}
use mimisbrunnr.Wal.Entry.{WalEntryHeader, entry_of_bytes, wal_entry_header_len, check_magic}
use mimisbrunnr.Wal.Header.{WalHeader}
use mimisbrunnr.Wal.Ring.State.{Wal, data_capacity, data_offset}
use mimisbrunnr.Wal.Ring.Monad.{Method, ◌>>=◌, ◌>>◌, pure, guard, get_wal, put_wal, read_at, sync}
use mimisbrunnr.Wal.Ring.Open.{flush_header, is_ok}

-- The ring behind the release of its oldest sector; the subtraction is that of u64.
unfoldable pub released : Wal → Wal
released w =
    let h : WalHeader = w.header in
    record w {
      header = record h {
        read_cursor = (h.read_cursor + block_size) % data_capacity w;
        used_bytes = (h.used_bytes + 2 ^ 64 - block_size) % 2 ^ 64;
      };
    }

-- Whether the entry of a sector is to be kept: no entry at all, or a later one.
unfoldable pub stops_at : ℕ → WalEntryHeader → Bool
stops_at last h = if is_ok (check_magic h) then ltb last h.lsn else Bool.true

unfoldable pub reclaim : ℕ → ℕ → ℕ → Method ℕ
reclaim zero last reclaimed = pure reclaimed
reclaim (suc fuel) last reclaimed = do
  w ← get_wal
  elim (w.header.used_bytes == 0) [
    | Bool.true ↦ pure reclaimed
    | Bool.false ↦ do
      sector ← read_at (data_offset w + w.header.read_cursor) block_size
      elim (stops_at last (entry_of_bytes (take wal_entry_header_len sector))) [
        | Bool.true ↦ pure reclaimed
        | Bool.false ↦ do _ ← put_wal (released w); reclaim fuel last (reclaimed + 1)
      ]
  ]

abbrev pub with_checkpoint : Wal → ℕ → Wal
with_checkpoint w lsn =
    let h : WalHeader = w.header in record w { header = record h { last_checkpoint_lsn = lsn } }

module _ (crc32c : List ℕ → ℕ) where
  unfoldable pub checkpoint : ℕ → Method ℕ
  checkpoint last = do
    w ← get_wal
    guard (not w.read_only) read_only
    reclaimed ← reclaim (suc w.header.used_bytes) last 0
    w' ← get_wal
    put_wal (with_checkpoint w' last)
    flush_header crc32c
    sync
    pure reclaimed
