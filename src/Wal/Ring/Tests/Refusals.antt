-- ===== src/Wal/Ring/Tests/Refusals.antt =====
-- The refusals of `crates/wal/src/ring.rs` on the ring with one sector, and an iterator after an error.
use mimisbrunnr.Base.{◌≡◌, refl, [], ◌∷◌, true, false, ok, err, some, arith}
use mimisbrunnr.Storage.Device.Image.{Device, write_bytes}
use mimisbrunnr.Wal.Ring.State.{Wal, data_capacity, data_sectors}
use mimisbrunnr.Wal.Ring.Open.{open_read_only}
use mimisbrunnr.Wal.Ring.Append.{append_raw, advanced}
use mimisbrunnr.Wal.Ring.Checkpoint.{checkpoint}
use mimisbrunnr.Wal.Ring.Iter.{WalIter, next, next_loop, finished}
use mimisbrunnr.Storage.Device.Image
use mimisbrunnr.Storage.Error.{out_of_bounds}
use mimisbrunnr.Wal.Error.{storage, read_only}
use mimisbrunnr.Wal.Ring.Refine.Refuse.{open_read_only-refuses}
use mimisbrunnr.Wal.Ring.Refine.Recover.{open_ring-Recovers}
use mimisbrunnr.Wal.Ring.Refine.Format.{ring}
use mimisbrunnr.Wal.Ring.Tests.{
  checksum, checksum_lt, payload, stamp, entry_1, ring_1, device_1, ring_1-Recovers,
}

-- The ring as `open_read_only` returns it.
abbrev locked_ring : Wal
locked_ring = record ring_1 { read_only = true }

locked_run : open_read_only checksum device_1 0 12288 ≡ ok locked_ring
unfolding open_read_only ring advanced
locked_run =
    ground (
      arith,
      open_ring-Recovers checksum checksum_lt ring_1 device_1 (entry_1 ∷ []) ring_1-Recovers,
    )

open_read_only-refuses_example :
    (append_raw checksum 7 payload stamp 0 locked_ring device_1
      ≡ record { wal = locked_ring; device = device_1; result = err read_only })
    × (checkpoint checksum 1 locked_ring device_1
        ≡ record { wal = locked_ring; device = device_1; result = err read_only })
open_read_only-refuses_example =
    open_read_only-refuses checksum device_1 0 12288 locked_ring 7 payload stamp 0 1 locked_run

one_sector : 4096 ≡ data_capacity ring_1
unfolding ring data_capacity data_sectors
one_sector = refl

-- A ring that claims a sector past the end of its device.
abbrev no_device : Device
no_device = record { mem = λ _. 0; capacity = 0; is_read_only = false }

abbrev lost : WalIter
lost = record {
  data_offset = 8192;
  data_capacity = 4096;
  cursor = 0;
  remaining = 4096;
  start_lsn = 1;
  done = false;
}

abbrev lost_done : WalIter
lost_done = record lost { done = true }

lost_run :
    next checksum no_device lost ≡ (lost_done, some (err (storage (out_of_bounds 8192 4096 0))))
unfolding next next_loop finished Image.read_at
lost_run = refl
