-- ===== src/Wal/Ring/Refine/History.antt =====
-- Histories of a ring of `crates/wal/src/ring.rs`: appends, checkpoints, reopenings and crashes in any
-- order.
use mimisbrunnr.Base.{
  ℕ, ◌+◌, ◌^◌, ◌≤◌, ◌<◌, ◌≡◌, List, [], ◌∷◌, ◌++◌, length, false, Result, ok, err,
}
use mimisbrunnr.Types.Timestamp.{HybridTimestamp}
use mimisbrunnr.Storage.Device.Image.{Device, write_bytes}
use mimisbrunnr.Wal.Error.{WalError}
use mimisbrunnr.Wal.Ring.State.{Wal, header_slot_offset, data_offset, data_capacity}
use mimisbrunnr.Wal.Ring.Open.{open_ring, other_slot}
use mimisbrunnr.Wal.Ring.Append.{append_raw}
use mimisbrunnr.Wal.Ring.Checkpoint.{checkpoint}
use mimisbrunnr.Wal.Ring.Iter.{WalEntry}
use mimisbrunnr.Wal.Ring.Refine.Reclaim.{uncovered}
use mimisbrunnr.Wal.Ring.Refine.AppendStep.{new_entry, CanAppend}
use mimisbrunnr.Wal.Ring.Refine.Flush.{with_mem}
use mimisbrunnr.Wal.Ring.Refine.Durable.{copy_at, outranks}

-- The device with other bytes at the write cursor.
abbrev pub behind_device : Wal → Device → List ℕ → Device
behind_device w d bs = with_mem d (write_bytes d.mem (data_offset w + w.header.write_cursor) bs)

-- The device behind a write into the inactive header slot.
abbrev pub torn_device : Wal → Device → List ℕ → Device
torn_device w d bs =
    with_mem d (write_bytes d.mem (header_slot_offset w (other_slot w.active_slot)) bs)

-- The ring that `open` returned.
abbrev opened : Wal → Result WalError Wal → Wal
opened w (ok w') = w'
opened w (err _) = w

module _ (crc32c : List ℕ → ℕ) where
  -- One event, and what it does to the queue of the entries: an append and a checkpoint that have written
  -- their header, a reopening, and the reopening after a crash inside the write of a sector, or inside that
  -- of a header as long as the slot does not yet hold a valid copy of the same or a later generation. A
  -- crash between a complete header write and the return of the call is the append or the checkpoint,
  -- followed by a reopening: the call's last step, a sync, changes nothing on the device.
  pub data Step (w : Wal) (d : Device) (es : List WalEntry)
      : Wal → Device → List WalEntry → Type 0 where
    append_step :
        (op_kind : ℕ) (payload : List ℕ) (ts : HybridTimestamp) (flags lsn : ℕ) (w' : Wal)
        (d' : Device)
        → CanAppend crc32c w d op_kind payload ts flags
        → append_raw crc32c op_kind payload ts flags w d
          ≡ record { wal = w'; device = d'; result = ok lsn }
        → Step w d es w' d' (es ++ (new_entry crc32c w op_kind payload ts flags ∷ []))
    checkpoint_step :
        (last n : ℕ) (w' : Wal) (d' : Device)
        → d.is_read_only ≡ false
        → w.header.header.generation + 1 < 2 ^ 64
        → last < 2 ^ 64
        → checkpoint crc32c last w d ≡ record { wal = w'; device = d'; result = ok n }
        → Step w d es w' d' (uncovered last es)
    reopen_step : (w' : Wal) → open_ring crc32c d w.base w.size ≡ ok w' → Step w d es w' d es
    crash_step :
        (bs : List ℕ) (w' : Wal)
        → length bs ≤ 4096
        → w.header.used_bytes + 4096 ≤ data_capacity w
        → open_ring crc32c (behind_device w d bs) w.base w.size ≡ ok w'
        → Step w d es w' (behind_device w d bs) es
    torn_step :
        (bs : List ℕ) (w' : Wal)
        → length bs ≤ 4096
        → outranks crc32c w.header (copy_at w (torn_device w d bs) (other_slot w.active_slot))
          ≡ false
        → open_ring crc32c (torn_device w d bs) w.base w.size ≡ ok w'
        → Step w d es w' (torn_device w d bs) es

  -- Any number of events.
  pub data History (w : Wal) (d : Device) (es : List WalEntry)
      : Wal → Device → List WalEntry → Type 0 where
    start : History w d es w d es
    then_step :
        (w1 : Wal) (d1 : Device) (es1 : List WalEntry) (w2 : Wal) (d2 : Device)
        (es2 : List WalEntry)
        → History w d es w1 d1 es1
        → Step w1 d1 es1 w2 d2 es2
        → History w d es w2 d2 es2
