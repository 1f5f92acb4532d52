-- ===== src/Wal/Ring/Refine/Recover.antt =====
-- What `open` of `crates/wal/src/ring.rs` recovers after an append, after a checkpoint, and after a crash
-- inside one.
use mimisbrunnr.Base.{
  ℕ, ◌+◌, ◌-◌, ◌^◌, ◌≤◌, ◌<◌, ◌≡◌, refl, ◌∙◌, inl, List, [], ◌∷◌, ◌++◌, length, false, ok, arith,
}
use mimisbrunnr.Types.Timestamp.{HybridTimestamp}
use mimisbrunnr.Storage.Device.Image.{Device, write_bytes}
use mimisbrunnr.Wal.Header.{recompute_crc}
use mimisbrunnr.Wal.Ring.State.{Wal, data_capacity, data_offset, header_slot_offset}
use mimisbrunnr.Wal.Ring.Open.{open_ring, other_slot}
use mimisbrunnr.Wal.Ring.Append.{append_raw, advanced}
use mimisbrunnr.Wal.Ring.Checkpoint.{checkpoint}
use mimisbrunnr.Wal.Ring.Iter.{WalEntry}
use mimisbrunnr.Wal.Ring.Refine.Flush.{with_mem, flushed, flushed_device}
use mimisbrunnr.Wal.Ring.Refine.Geometry.{data_area}
use mimisbrunnr.Wal.Ring.Refine.Window.{Stored-write_outside}
use mimisbrunnr.Wal.Ring.Refine.Queue.{Holds, Holds-memory}
use mimisbrunnr.Wal.Ring.Refine.FlushHolds.{flush-Holds}
use mimisbrunnr.Wal.Ring.Refine.AppendStep.{
  new_entry, advanced_wal, sector_device, CanAppend, append_outcome,
}
use mimisbrunnr.Wal.Ring.Refine.Append.{
  appended, advanced-Holds, advanced-InRange, sector_fits, Stored-write_free,
}
use mimisbrunnr.Wal.Ring.Refine.Reclaim.{uncovered}
use mimisbrunnr.Wal.Ring.Refine.Checkpoint.{
  looped, marked, reclaimed, marked_room, marked-Holds, checkpoint_outcome,
}
use mimisbrunnr.Wal.Ring.Refine.Durable.{
  OnDisk, copy_at, outranks, open_ring-OnDisk, OnDisk-write_data, OnDisk-torn, flush-OnDisk,
}

module _ (crc32c : List ℕ → ℕ) (crc_lt : (bs : List ℕ) → crc32c bs < 2 ^ 32) where
  -- The ring `w` holds `es`, and is what `open` finds on the device.
  pub record Recovers (w : Wal) (d : Device) (es : List WalEntry) : Type 0 where
    pub holds : Holds crc32c w d es
    pub on_disk : OnDisk crc32c w d

  slot_before :
      (w : Wal) (bs : List ℕ)
      → length bs ≤ 4096
      → w.active_slot ≤ 1
      → data_offset w ≡ w.base + 8192
      → header_slot_offset w (other_slot w.active_slot) + length bs ≤ data_offset w
  unfolding header_slot_offset
  slot_before w bs short slot offset = ground (arith, short, slot, offset)

  -- `open` on the device of a recoverable ring returns that ring.
  pub open_ring-Recovers :
      (w : Wal) (d : Device) (es : List WalEntry)
      → Recovers w d es
      → open_ring crc32c d w.base w.size ≡ ok w
  open_ring-Recovers w d es r = open_ring-OnDisk crc32c w d r.on_disk

  -- Whatever bytes a broken write leaves in the inactive header slot, `open` finds the ring with all its
  -- entries, unless they happen to be a valid header of the same or a later generation.
  pub torn_header-Recovers :
      (w : Wal) (d : Device) (es : List WalEntry) (bs : List ℕ)
      → length bs ≤ 4096
      → outranks crc32c w.header (
          copy_at w
            (with_mem d (write_bytes d.mem (header_slot_offset w (other_slot w.active_slot)) bs))
            (other_slot w.active_slot))
        ≡ false
      → Recovers w d es
      → (open_ring crc32c
            (with_mem d (write_bytes d.mem (header_slot_offset w (other_slot w.active_slot)) bs))
            w.base
            w.size
          ≡ ok w)
        × Recovers w
            (with_mem d (write_bytes d.mem (header_slot_offset w (other_slot w.active_slot)) bs))
            es
  torn_header-Recovers w d es bs short older r =
      let v = r.holds in
      let o = OnDisk-torn crc32c w d bs short older r.on_disk in
      let (area, whole, _, offset) = data_area w v.size in
      (
        open_ring-OnDisk crc32c w _ o,
        record {
          on_disk = o;
          holds = Holds-memory crc32c w d es _ v (
              Stored-write_outside crc32c d.mem (data_offset w) (data_capacity w) whole
                (header_slot_offset w (other_slot w.active_slot)) bs w.header.read_cursor es
                (inl (slot_before w bs short v.slot offset)) v.aligned v.inside v.stored);
        },
      )

  -- Whatever part of a sector a crash inside `append_raw` leaves at the write cursor, or whatever else,
  -- `open` finds the ring with all its entries, where the ring has room for that sector.
  pub torn_sector-Recovers :
      (w : Wal) (d : Device) (es : List WalEntry) (bs : List ℕ)
      → length bs ≤ 4096
      → w.header.used_bytes + 4096 ≤ data_capacity w
      → Recovers w d es
      → (open_ring crc32c
            (with_mem d (write_bytes d.mem (data_offset w + w.header.write_cursor) bs))
            w.base
            w.size
          ≡ ok w)
        × Recovers w (with_mem d (write_bytes d.mem (data_offset w + w.header.write_cursor) bs)) es
  torn_sector-Recovers w d es bs short room r =
      let (_, _, _, offset) = data_area w r.holds.size in
      let o =
        OnDisk-write_data crc32c w d (data_offset w + w.header.write_cursor) bs
          (omega (arith, offset)) r.on_disk in
      (
        open_ring-OnDisk crc32c w _ o,
        record {
          on_disk = o;
          holds =
              Holds-memory crc32c w d es _ r.holds
                (Stored-write_free crc32c crc_lt w d es bs r.holds short room);
        },
      )

  module _ (w : Wal) (d : Device) (es : List WalEntry) (op_kind : ℕ) (payload : List ℕ)
      (ts : HybridTimestamp) (flags : ℕ) (r : Recovers w d es)
      (c : CanAppend crc32c w d op_kind payload ts flags) where
    sector-OnDisk :
        OnDisk crc32c w (sector_device crc32c w d (new_entry crc32c w op_kind payload ts flags))
    unfolding data_offset
    sector-OnDisk =
        OnDisk-write_data crc32c w d (w.base + 8192 + w.header.write_cursor) _ (omega arith)
          r.on_disk

    -- The ring and the device behind the call.
    abbrev pub appended_ring : Wal
    appended_ring = flushed crc32c (advanced_wal crc32c w)

    abbrev pub appended_device : Device
    appended_device =
        flushed_device crc32c (advanced_wal crc32c w)
          (sector_device crc32c w d (new_entry crc32c w op_kind payload ts flags))

    pub appended-Recovers :
        Recovers appended_ring appended_device
          (es ++ (new_entry crc32c w op_kind payload ts flags ∷ []))
    unfolding appended advanced header_slot_offset
    appended-Recovers =
        let v = r.holds in
        record {
          holds =
              (flush-Holds crc32c crc_lt (advanced_wal crc32c w)
                (sector_device crc32c w d (new_entry crc32c w op_kind payload ts flags))
                (es ++ (new_entry crc32c w op_kind payload ts flags ∷ []))
                (advanced-Holds crc32c crc_lt w d es op_kind payload ts flags v c)
                c.generation_room).1;
          on_disk =
              flush-OnDisk crc32c crc_lt w (advanced_wal crc32c w) _ sector-OnDisk
                (advanced-InRange crc32c crc_lt w d es v c.room c.lsn_room) refl refl refl
                c.writable refl c.generation_room;
        }

    pub appended_run :
        append_raw crc32c op_kind payload ts flags w d
        ≡ record { wal = appended_ring; device = appended_device; result = ok w.header.next_lsn }
    unfolding appended advanced header_slot_offset
    appended_run =
        let v = r.holds in
        let (slot, _) =
          flush-Holds crc32c crc_lt (advanced_wal crc32c w)
            (sector_device crc32c w d (new_entry crc32c w op_kind payload ts flags))
            (es ++ (new_entry crc32c w op_kind payload ts flags ∷ []))
            (advanced-Holds crc32c crc_lt w d es op_kind payload ts flags v c) c.generation_room in
        append_outcome crc32c w d op_kind payload ts flags c
          (sector_fits crc32c crc_lt w d es op_kind payload ts flags v c) slot

    -- `append_raw` on a recoverable ring that holds `es` and has room returns the next LSN and leaves a
    -- recoverable ring that holds `es` with the new entry behind it.
    pub append_raw-Recovers :
        (w' : Wal) × (d' : Device) × (append_raw crc32c op_kind payload ts flags w d
          ≡ record { wal = w'; device = d'; result = ok w.header.next_lsn })
        × Recovers w' d' (es ++ (new_entry crc32c w op_kind payload ts flags ∷ []))
    append_raw-Recovers = (appended_ring, appended_device, appended_run, appended-Recovers)

  -- On a recoverable ring that holds `es`, with a writable device, a header generation that can still be
  -- raised within 64 bits, and a 64-bit `last`, `checkpoint` returns the number of the entries up to `last`,
  -- records `last`, and leaves a recoverable ring that holds exactly the others.
  pub checkpoint-Recovers :
      (w : Wal) (d : Device) (es : List WalEntry) (last : ℕ)
      → Recovers w d es
      → d.is_read_only ≡ false
      → w.header.header.generation + 1 < 2 ^ 64
      → last < 2 ^ 64
      → (w' : Wal) × (d' : Device) × (checkpoint crc32c last w d
          ≡ record { wal = w'; device = d'; result = ok (length es - length (uncovered last es)) })
        × (w'.header.last_checkpoint_lsn ≡ last)
        × Recovers w' d' (uncovered last es)
  unfolding recompute_crc marked looped
  checkpoint-Recovers w d es last r writable room small =
      let v = r.holds in
      let o = r.on_disk in
      let loop = reclaimed crc32c crc_lt d w es last v o.writable writable room small in
      let w' = marked crc32c crc_lt d w es last v o.writable writable room small in
      let room' = marked_room crc32c crc_lt d w es last v o.writable writable room small in
      let v' = marked-Holds crc32c crc_lt d w es last v o.writable writable room small in
      let (slot, holds) = flush-Holds crc32c crc_lt w' d (uncovered last es) v' room' in
      (
        flushed crc32c w',
        flushed_device crc32c w' d,
        checkpoint_outcome crc32c crc_lt d w es last v o.writable writable room small,
        refl,
        record {
          holds = holds;
          on_disk =
              flush-OnDisk crc32c crc_lt w w' d o v'.in_range loop.base loop.size loop.active_slot
                (loop.read_only ∙ o.writable) loop.header room;
        },
      )
