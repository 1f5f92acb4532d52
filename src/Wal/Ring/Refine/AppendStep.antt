-- ===== src/Wal/Ring/Refine/AppendStep.antt =====
-- What a call of `append_raw` of `crates/wal/src/ring.rs` does when none of its guards refuses it.
use mimisbrunnr.Base.{ℕ, ◌+◌, ◌^◌, ◌≤◌, ◌<◌, ◌≡◌, refl, bit_and, List, length, ok, false, arith}
use mimisbrunnr.Base.Int.{IsI64}
use mimisbrunnr.Types.Timestamp.{HybridTimestamp}
use mimisbrunnr.Storage.Device.Image.{Device, write_bytes, sync}
use mimisbrunnr.Wal.Header.{header_bytes}
use mimisbrunnr.Wal.Entry.{new_entry_header}
use mimisbrunnr.Wal.Ring.State.{Wal, data_capacity, data_offset, header_slot_offset}
use mimisbrunnr.Wal.Ring.Open.{other_slot}
use mimisbrunnr.Wal.Ring.Append.{entry_header_for, advanced, append_raw}
use mimisbrunnr.Wal.Ring.Iter.{WalEntry}
use mimisbrunnr.Wal.Ring.Refine.Sector.{IsFramed, image}
use mimisbrunnr.Wal.Ring.Refine.Flush.{
  with_mem, write_at_inside, next_header, flushed, flushed_device, flush_header_lem,
}

module _ (crc32c : List ℕ → ℕ) where
  -- The entry that a call appends.
  abbrev pub new_entry : Wal → ℕ → List ℕ → HybridTimestamp → ℕ → WalEntry
  new_entry w op_kind payload ts flags = record {
    header = entry_header_for crc32c op_kind payload ts flags w.header.next_lsn;
    payload = payload;
  }

  abbrev pub advanced_wal : Wal → Wal
  advanced_wal w = record w { header = advanced crc32c w }

  abbrev pub sector_device : Wal → Device → WalEntry → Device
  sector_device w d e =
      with_mem d (write_bytes d.mem (data_offset w + w.header.write_cursor) (image crc32c e))

  -- What the caller of `append_raw` answers for.
  pub record CanAppend (w : Wal) (d : Device) (op_kind : ℕ) (payload : List ℕ)
      (ts : HybridTimestamp) (flags : ℕ) : Type 0 where
    pub writable : w.read_only ≡ false
    pub device_writable : d.is_read_only ≡ false
    pub plain : bit_and flags 1 ≡ 0
    pub uncompressed : bit_and flags 2 ≡ 0
    pub short : length payload ≤ 4052
    pub room : w.header.used_bytes + 4096 ≤ data_capacity w
    pub lsn_room : w.header.next_lsn + 1 < 2 ^ 64
    pub op_kind_u8 : op_kind < 2 ^ 8
    pub flags_u16 : flags < 2 ^ 16
    pub physical_i64 : IsI64 ts.physical_ns
    pub logical_u16 : ts.logical < 2 ^ 16
    pub node_u16 : ts.node_id < 2 ^ 16
    pub generation_room : w.header.header.generation + 1 < 2 ^ 64

  pub append_outcome :
      (w : Wal) (d : Device) (op_kind : ℕ) (payload : List ℕ) (ts : HybridTimestamp) (flags : ℕ)
      → CanAppend w d op_kind payload ts flags
      → data_offset w
          + w.header.write_cursor
          + length (image crc32c (new_entry w op_kind payload ts flags))
        ≤ d.capacity
      → header_slot_offset w (other_slot w.active_slot)
          + length (header_bytes (next_header crc32c (advanced_wal w)))
        ≤ d.capacity
      → append_raw crc32c op_kind payload ts flags w d ≡ record {
        wal = flushed crc32c (advanced_wal w);
        device =
            flushed_device crc32c
              (advanced_wal w)
              (sector_device w d (new_entry w op_kind payload ts flags));
        result = ok w.header.next_lsn;
      }
  unfolding append_raw header_slot_offset sync
  append_outcome w d op_kind payload ts flags c fits slot = ground (
    arith,
    c.writable,
    write_at_inside d (data_offset w + w.header.write_cursor)
        (image crc32c (new_entry w op_kind payload ts flags)) c.device_writable fits,
    flush_header_lem crc32c (advanced_wal w)
        (sector_device w d (new_entry w op_kind payload ts flags)) c.generation_room
        c.device_writable slot,
  )

  module _ (crc_lt : (bs : List ℕ) → crc32c bs < 2 ^ 32) where
    pub new_entry-IsFramed :
        (w : Wal) (d : Device) (op_kind : ℕ) (payload : List ℕ) (ts : HybridTimestamp) (flags : ℕ)
        → CanAppend w d op_kind payload ts flags
        → IsFramed crc32c (new_entry w op_kind payload ts flags)
    unfolding entry_header_for new_entry_header
    new_entry-IsFramed w d op_kind payload ts flags c = record {
      in_range = record {
        magic = refl;
        op_kind = c.op_kind_u8;
        format_version = omega arith;
        flags = c.flags_u16;
        lsn = omega (arith, c.lsn_room);
        physical_ns = c.physical_i64;
        logical = c.logical_u16;
        node_id = c.node_u16;
        pad = omega arith;
        payload_length = omega (arith, c.short);
        payload_crc = crc_lt payload;
      };
      magic = refl;
      payload_length = refl;
      fits = c.short;
      payload_crc = refl;
      plain = c.plain;
      uncompressed = c.uncompressed;
    }
