-- ===== src/Wal/Ring/Refine/Append.antt =====
-- `append_raw` of `crates/wal/src/ring.rs` on a ring with room joins the entry to the queue.
use native.Mathlib.Nat.{mod-lt}
use mimisbrunnr.Base.{
  ℕ, ◌+◌, ◌%◌, ◌^◌, ◌≤◌, ◌<◌, ◌≡◌, refl, ap, ◌∙◌, List, [], ◌∷◌, ◌++◌, length, length-append, ok,
  arith,
}
use mimisbrunnr.Types.Timestamp.{HybridTimestamp}
use mimisbrunnr.Storage.Device.Image.{Device, write_bytes}
use mimisbrunnr.Wal.Header.Codec.{InRange}
use mimisbrunnr.Wal.Entry.{new_entry_header}
use mimisbrunnr.Wal.Ring.State.{Wal, data_capacity, data_offset, header_slot_offset}
use mimisbrunnr.Wal.Ring.Append.{entry_header_for, advanced, append_raw}
use mimisbrunnr.Wal.Ring.Iter.{WalEntry}
use mimisbrunnr.Wal.Ring.Refine.Geometry.{data_area, turn_aligned, cursor_moves}
use mimisbrunnr.Wal.Ring.Refine.Sector.{IsFramed, image, length-image}
use mimisbrunnr.Wal.Ring.Refine.Window.{Stored-write_behind, Stored-append}
use mimisbrunnr.Wal.Ring.Refine.Flush.{flushed, flushed_device}
use mimisbrunnr.Wal.Ring.Refine.Replay.{Stored}
use mimisbrunnr.Wal.Ring.Refine.Queue.{Ascending-snoc, Holds}
use mimisbrunnr.Wal.Ring.Refine.FlushHolds.{flush-Holds}
use mimisbrunnr.Wal.Ring.Refine.AppendStep.{
  new_entry, advanced_wal, sector_device, CanAppend, append_outcome, new_entry-IsFramed,
}

module _ (crc32c : List ℕ → ℕ) where
  module _ (crc_lt : (bs : List ℕ) → crc32c bs < 2 ^ 32) where
    pub advanced-InRange :
        (w : Wal) (d : Device) (es : List WalEntry)
        → Holds crc32c w d es
        → w.header.used_bytes + 4096 ≤ data_capacity w
        → w.header.next_lsn + 1 < 2 ^ 64
        → InRange (advanced crc32c w)
    unfolding advanced
    advanced-InRange w d es v room lsn =
        let (area, whole, large, _) = data_area w v.size in
        let wrapped : (w.header.write_cursor + 4096) % data_capacity w < data_capacity w =
          mod-lt _ (omega arith) in
        record {
          header = v.in_range.header;
          next_lsn = lsn;
          write_cursor = omega (arith, wrapped, v.small);
          read_cursor = v.in_range.read_cursor;
          used_bytes = omega (arith, v.small);
          last_checkpoint_lsn = v.in_range.last_checkpoint_lsn;
          segment_size = v.in_range.segment_size;
          pad = v.in_range.pad;
          encryption_keyid = v.in_range.encryption_keyid;
          reserved = v.in_range.reserved;
          crc = v.in_range.crc;
        }

    pub cursor_inside :
        (w : Wal) (d : Device) (es : List WalEntry)
        → Holds crc32c w d es
        → (w.header.write_cursor % 4096 ≡ 0) × (w.header.write_cursor < data_capacity w)
    cursor_inside w d es v =
        let (_, whole, _, _) = data_area w v.size in
        let facts =
          turn_aligned (data_capacity w) w.header.read_cursor w.header.used_bytes whole v.aligned
            (omega (arith, v.used)) v.inside v.room in
        (omega (arith, facts, v.write_at), omega (arith, facts, v.write_at))

    -- Where the data area has room for a sector, a write of at most a sector at the write cursor leaves
    -- the entries stored.
    pub Stored-write_free :
        (w : Wal) (d : Device) (es : List WalEntry) (bs : List ℕ)
        → Holds crc32c w d es
        → length bs ≤ 4096
        → w.header.used_bytes + 4096 ≤ data_capacity w
        → Stored crc32c
            (write_bytes d.mem (data_offset w + w.header.write_cursor) bs)
            (data_offset w)
            (data_capacity w)
            w.header.read_cursor
            es
    Stored-write_free w d es bs v short room =
        let (_, whole, _, _) = data_area w v.size in
        Stored-write_behind crc32c d.mem (data_offset w) (data_capacity w) whole bs
          w.header.write_cursor w.header.read_cursor es short
          (v.write_at ∙ ap (λ k. (w.header.read_cursor + k) % data_capacity w) v.used)
          (cursor_inside w d es v).0 (omega (arith, v.used, room)) v.aligned v.inside v.stored

    module _ (w : Wal) (d : Device) (es : List WalEntry) (op_kind : ℕ) (payload : List ℕ)
        (ts : HybridTimestamp) (flags : ℕ) (v : Holds crc32c w d es)
        (c : CanAppend crc32c w d op_kind payload ts flags) where
      unfoldable pub appended : WalEntry
      appended = new_entry crc32c w op_kind payload ts flags

      framed : IsFramed crc32c appended
      unfolding appended
      framed = new_entry-IsFramed crc32c crc_lt w d op_kind payload ts flags c

      pub sector-Stored :
          Stored crc32c
            (write_bytes d.mem (data_offset w + w.header.write_cursor) (image crc32c appended))
            (data_offset w)
            (data_capacity w)
            w.header.read_cursor
            (es ++ (appended ∷ []))
      sector-Stored =
          let (_, whole, _, _) = data_area w v.size in
          Stored-append crc32c d.mem (data_offset w) (data_capacity w) whole appended
            w.header.write_cursor w.header.read_cursor es framed
            (v.write_at ∙ ap (λ k. (w.header.read_cursor + k) % data_capacity w) v.used)
            (cursor_inside w d es v).0 (omega (arith, v.used, c.room)) v.aligned v.inside v.stored

      pub advanced-Holds :
          Holds crc32c
            (advanced_wal crc32c w)
            (sector_device crc32c w d appended)
            (es ++ (appended ∷ []))
      unfolding appended entry_header_for new_entry_header data_capacity data_offset advanced
      advanced-Holds = record {
        size = v.size;
        on_device = v.on_device;
        small = v.small;
        aligned = v.aligned;
        inside = v.inside;
        used = omega (arith, v.used, length-append {0} es (appended ∷ []));
        room = c.room;
        write_at =
            cursor_moves (data_capacity w) w.header.write_cursor w.header.read_cursor
              w.header.used_bytes v.write_at;
        in_range = advanced-InRange w d es v c.room c.lsn_room;
        slot = v.slot;
        lsns = Ascending-snoc 0 w.header.next_lsn es appended v.lsns refl;
        stored = sector-Stored;
      }

      pub sector_fits :
          data_offset w + w.header.write_cursor + length (image crc32c appended) ≤ d.capacity
      sector_fits =
          let (area, whole, _, offset) = data_area w v.size in
          omega (
            arith,
            area,
            whole,
            offset,
            cursor_inside w d es v,
            length-image crc32c appended framed,
            v.on_device,
          )

      -- `append_raw` on a ring that holds `es` and has room returns the next LSN, and the ring then
      -- holds `es` with the new entry behind it.
      pub append_raw-Holds :
          (w' : Wal) × (d' : Device) × (append_raw crc32c op_kind payload ts flags w d
            ≡ record { wal = w'; device = d'; result = ok w.header.next_lsn })
          × Holds crc32c w' d' (es ++ (new_entry crc32c w op_kind payload ts flags ∷ []))
      unfolding appended advanced header_slot_offset
      append_raw-Holds =
          let (slot, holds) =
            flush-Holds crc32c crc_lt (advanced_wal crc32c w) (sector_device crc32c w d appended)
              (es ++ (appended ∷ [])) advanced-Holds c.generation_room in
          (
            flushed crc32c (advanced_wal crc32c w),
            flushed_device crc32c (advanced_wal crc32c w) (sector_device crc32c w d appended),
            append_outcome crc32c w d op_kind payload ts flags c sector_fits slot,
            holds,
          )
