-- ===== src/Wal/Ring/Refine/Flush.antt =====
-- What `flush_header` of `crates/wal/src/ring.rs` leaves behind when it succeeds.
use mimisbrunnr.Base.{ℕ, ◌+◌, ◌^◌, ◌≤◌, ◌<◌, ◌≡◌, List, length, ok, arith, false}
use mimisbrunnr.Storage.Device.Image.{Device, write_bytes, write_at}
use mimisbrunnr.Wal.Header.{WalHeader, header_bytes, recompute_crc, header_crc}
use mimisbrunnr.Wal.Header.Codec.{InRange}
use mimisbrunnr.Wal.Ring.State.{Wal, header_slot_offset}
use mimisbrunnr.Wal.Ring.Open.{with_generation, other_slot, flush_header}

abbrev pub with_mem : Device → (ℕ → ℕ) → Device
with_mem d m = record d { mem = m }

pub write_at_inside :
    (d : Device) (i : ℕ) (bs : List ℕ)
    → d.is_read_only ≡ false
    → i + length bs ≤ d.capacity
    → write_at d i bs ≡ (with_mem d (write_bytes d.mem i bs), ok tt)
unfolding write_at
write_at_inside d i bs r h = ground arith

module _ (crc32c : List ℕ → ℕ) where
  -- The header that `flush_header` writes.
  abbrev pub next_header : Wal → WalHeader
  next_header w = recompute_crc crc32c (with_generation w.header (w.header.header.generation + 1))

  abbrev pub flushed : Wal → Wal
  flushed w = record w { header = next_header w; active_slot = other_slot w.active_slot }

  abbrev pub flushed_device : Wal → Device → Device
  flushed_device w d = with_mem d (
      write_bytes d.mem (header_slot_offset w (other_slot w.active_slot))
        (header_bytes (next_header w)))

  pub flush_header_lem :
      (w : Wal) (d : Device)
      → w.header.header.generation + 1 < 2 ^ 64
      → d.is_read_only ≡ false
      → header_slot_offset w (other_slot w.active_slot) + length (header_bytes (next_header w))
        ≤ d.capacity
      → flush_header crc32c w d
        ≡ record { wal = flushed w; device = flushed_device w d; result = ok tt }
  unfolding flush_header header_slot_offset
  flush_header_lem w d g r h = ground (
    arith,
    write_at_inside d (header_slot_offset w (other_slot w.active_slot))
        (header_bytes (next_header w)) r h,
  )

  module _ (crc_lt : (bs : List ℕ) → crc32c bs < 2 ^ 32) where
    pub flushed-InRange :
        (w : Wal)
        → InRange w.header
        → w.header.header.generation + 1 < 2 ^ 64
        → InRange (next_header w)
    unfolding recompute_crc header_crc
    flushed-InRange w v g = record {
      header = record {
        magic = v.header.magic;
        kind = v.header.kind;
        format_version = v.header.format_version;
        payload_length = v.header.payload_length;
        generation = g;
        lsn = v.header.lsn;
        flags = v.header.flags;
      };
      next_lsn = v.next_lsn;
      write_cursor = v.write_cursor;
      read_cursor = v.read_cursor;
      used_bytes = v.used_bytes;
      last_checkpoint_lsn = v.last_checkpoint_lsn;
      segment_size = v.segment_size;
      pad = v.pad;
      encryption_keyid = v.encryption_keyid;
      reserved = v.reserved;
      crc = crc_lt _;
    }
