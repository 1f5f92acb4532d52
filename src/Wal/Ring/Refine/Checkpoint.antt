-- ===== src/Wal/Ring/Refine/Checkpoint.antt =====
-- `checkpoint` of `crates/wal/src/ring.rs` drops from the queue what the checkpoint covers.
use mimisbrunnr.Base.{
  ℕ, suc, ◌+◌, ◌-◌, ◌^◌, ◌<◌, ◌≡◌, refl, sym, List, length, ok, false, subst, arith,
}
use mimisbrunnr.Storage.Device.Image.{Device, sync}
use mimisbrunnr.Wal.Header.{recompute_crc}
use mimisbrunnr.Wal.Ring.State.{Wal, data_capacity, data_offset}
use mimisbrunnr.Wal.Ring.Monad.{Outcome}
use mimisbrunnr.Wal.Ring.Checkpoint.{reclaim, with_checkpoint, checkpoint}
use mimisbrunnr.Wal.Ring.Iter.{WalEntry}
use mimisbrunnr.Wal.Ring.Refine.Flush.{flushed, flushed_device, flush_header_lem}
use mimisbrunnr.Wal.Ring.Refine.Queue.{Holds}
use mimisbrunnr.Wal.Ring.Refine.FlushHolds.{flush-Holds}
use mimisbrunnr.Wal.Ring.Refine.Reclaim.{uncovered, Reclaimed, reclaim_lem}

module _ (crc32c : List ℕ → ℕ) (crc_lt : (bs : List ℕ) → crc32c bs < 2 ^ 32) (d : Device) where
  with_checkpoint-Holds :
      (w : Wal) (last : ℕ) (es : List WalEntry)
      → last < 2 ^ 64
      → Holds crc32c w d es
      → Holds crc32c (with_checkpoint w last) d es
  unfolding data_capacity data_offset
  with_checkpoint-Holds w last es l v = record {
    size = v.size;
    on_device = v.on_device;
    small = v.small;
    aligned = v.aligned;
    inside = v.inside;
    used = v.used;
    room = v.room;
    write_at = v.write_at;
    in_range = record {
      header = v.in_range.header;
      next_lsn = v.in_range.next_lsn;
      write_cursor = v.in_range.write_cursor;
      read_cursor = v.in_range.read_cursor;
      used_bytes = v.in_range.used_bytes;
      last_checkpoint_lsn = l;
      segment_size = v.in_range.segment_size;
      pad = v.in_range.pad;
      encryption_keyid = v.in_range.encryption_keyid;
      reserved = v.in_range.reserved;
      crc = v.in_range.crc;
    };
    slot = v.slot;
    lsns = v.lsns;
    stored = v.stored;
  }

  module _ (w : Wal) (es : List WalEntry) (last : ℕ) (v : Holds crc32c w d es)
      (writable : w.read_only ≡ false) (device_writable : d.is_read_only ≡ false)
      (generation_room : w.header.header.generation + 1 < 2 ^ 64) (last_u64 : last < 2 ^ 64) where
    unfoldable pub looped : Outcome ℕ
    looped = reclaim (suc w.header.used_bytes) last 0 w d

    pub reclaimed : Reclaimed crc32c crc_lt d last 0 w es looped
    unfolding looped
    reclaimed =
        reclaim_lem crc32c crc_lt d (suc w.header.used_bytes) last 0 w es v (omega (arith, v.used))

    unfoldable pub marked : Wal
    marked = with_checkpoint looped.wal last

    pub marked_room : marked.header.header.generation + 1 < 2 ^ 64
    unfolding marked
    marked_room = subst (λ b. b.generation + 1 < 2 ^ 64) (sym reclaimed.header) generation_room

    pub marked-Holds : Holds crc32c marked d (uncovered last es)
    unfolding marked
    marked-Holds =
        with_checkpoint-Holds looped.wal last (uncovered last es) last_u64 reclaimed.holds

    pub checkpoint_outcome : checkpoint crc32c last w d ≡ record {
      wal = flushed crc32c marked;
      device = flushed_device crc32c marked d;
      result = ok (length es - length (uncovered last es));
    }
    unfolding checkpoint looped marked sync
    checkpoint_outcome =
        let (slot, _) =
          flush-Holds crc32c crc_lt marked d (uncovered last es) marked-Holds marked_room in
        ground (
          arith,
          writable,
          device_writable,
          reclaimed.device,
          reclaimed.result,
          flush_header_lem crc32c marked d marked_room device_writable slot,
        )

    -- `checkpoint` on a ring that holds `es` drops exactly the entries up to `last`, returns how many
    -- they were, and records `last`.
    pub checkpoint-Holds :
        (w' : Wal) × (d' : Device) × (checkpoint crc32c last w d
          ≡ record { wal = w'; device = d'; result = ok (length es - length (uncovered last es)) })
        × (w'.header.last_checkpoint_lsn ≡ last)
        × Holds crc32c w' d' (uncovered last es)
    unfolding marked recompute_crc
    checkpoint-Holds =
        let (slot, holds) =
          flush-Holds crc32c crc_lt marked d (uncovered last es) marked-Holds marked_room in
        (flushed crc32c marked, flushed_device crc32c marked d, checkpoint_outcome, refl, holds)
