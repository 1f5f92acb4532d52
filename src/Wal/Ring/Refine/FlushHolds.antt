-- ===== src/Wal/Ring/Refine/FlushHolds.antt =====
-- `flush_header` of `crates/wal/src/ring.rs` keeps the entries of the ring.
use mimisbrunnr.Base.{ℕ, ◌+◌, ◌^◌, ◌≤◌, ◌<◌, inl, List, length, arith}
use mimisbrunnr.Storage.Device.Image.{Device}
use mimisbrunnr.Wal.Header.{header_bytes, recompute_crc}
use mimisbrunnr.Wal.Header.Codec.{length-header_bytes}
use mimisbrunnr.Wal.Ring.State.{Wal, data_capacity, data_offset, header_slot_offset}
use mimisbrunnr.Wal.Ring.Open.{other_slot}
use mimisbrunnr.Wal.Ring.Iter.{WalEntry}
use mimisbrunnr.Wal.Ring.Refine.Geometry.{data_area}
use mimisbrunnr.Wal.Ring.Refine.Window.{Stored-write_outside}
use mimisbrunnr.Wal.Ring.Refine.Flush.{next_header, flushed, flushed_device, flushed-InRange}
use mimisbrunnr.Wal.Ring.Refine.Queue.{Holds}

module _ (crc32c : List ℕ → ℕ) (crc_lt : (bs : List ℕ) → crc32c bs < 2 ^ 32) (w : Wal) (d : Device)
    (es : List WalEntry) (v : Holds crc32c w d es)
    (room : w.header.header.generation + 1 < 2 ^ 64) where
  slot_before_data :
      header_slot_offset w (other_slot w.active_slot) + length (header_bytes (next_header crc32c w))
      ≤ data_offset w
  unfolding header_slot_offset data_offset
  slot_before_data = ground (
    arith,
    length-header_bytes (next_header crc32c w) (flushed-InRange crc32c crc_lt w v.in_range room),
  )

  -- The slot that is written lies on the device, and the entries stay.
  pub flush-Holds :
      (header_slot_offset w (other_slot w.active_slot)
          + length (header_bytes (next_header crc32c w))
        ≤ d.capacity)
      × Holds crc32c (flushed crc32c w) (flushed_device crc32c w d) es
  unfolding data_capacity data_offset recompute_crc
  flush-Holds =
      let (area, whole, _, offset) = data_area w v.size in
      (
        omega (arith, area, offset, slot_before_data, v.on_device),
        record {
          size = v.size;
          on_device = v.on_device;
          small = v.small;
          aligned = v.aligned;
          inside = v.inside;
          used = v.used;
          room = v.room;
          write_at = v.write_at;
          in_range = flushed-InRange crc32c crc_lt w v.in_range room;
          slot = ground arith;
          lsns = v.lsns;
          stored =
              Stored-write_outside crc32c d.mem (data_offset w) (data_capacity w) whole
                (header_slot_offset w (other_slot w.active_slot))
                (header_bytes (next_header crc32c w)) w.header.read_cursor es (inl slot_before_data)
                v.aligned v.inside v.stored;
        },
      )
