-- ===== src/Wal/Ring/Tests.antt =====
-- The ring of `crates/wal/src/ring.rs` with one data sector on an empty device.
mod Refusals
mod Codecs
use native.Mathlib.Nat.{mod-lt}
use mimisbrunnr.Base.{
  ℕ, ◌+◌, ◌-◌, ◌%◌, ◌^◌, ◌<◌, ◌≡◌, refl, List, [], ◌∷◌, map, keep, length, true, false, leb, ok,
  err, none, some, arith,
}
use mimisbrunnr.Base.Int.{pos}
use mimisbrunnr.Types.Timestamp.{HybridTimestamp, new_timestamp}
use mimisbrunnr.Storage.Device.Image.{Device, write_bytes}
use mimisbrunnr.Wal.Header.{
  default_header, recompute_crc, header_bytes, header_of_bytes, verify_crc,
}
use mimisbrunnr.Wal.Header.Codec.{verify_crc-recompute_crc}
use mimisbrunnr.Wal.Entry.{entry_bytes, entry_of_bytes}
use mimisbrunnr.Wal.Entry.Codec.{entry_of_bytes-entry_bytes}
use mimisbrunnr.Wal.Dirty.{DirtyNode, new_dirty, pin_all, is_clean, pin_all-new}
use mimisbrunnr.Wal.Ring.Refine.Sector.{IsFramed, image, decode_sector-image}
use mimisbrunnr.Storage.Block.{null_ref}
use mimisbrunnr.Wal.Ring.State.{
  Wal, data_capacity, data_offset, data_sectors, header_slot_offset, size_is_invalid,
}
use mimisbrunnr.Wal.Ring.Open.{open_ring, open_read_only, format, other_slot}
use mimisbrunnr.Wal.Ring.Append.{append_raw, advanced}
use mimisbrunnr.Wal.Ring.Checkpoint.{checkpoint}
use mimisbrunnr.Wal.Ring.Iter.{
  WalEntry, WalIter, iter_from, drain, next, next_loop, finished, decode_sector,
}
use mimisbrunnr.Storage.Device.Image
use mimisbrunnr.Storage.Error.{out_of_bounds}
use mimisbrunnr.Wal.Error.{storage, read_only, ring_full}
use mimisbrunnr.Wal.Ring.Refine.Refuse.{open_read_only-refuses}
use mimisbrunnr.Wal.Ring.Refine.Queue.{Holds, replay}
use mimisbrunnr.Wal.Ring.Refine.AppendStep.{CanAppend, new_entry, new_entry-IsFramed, sector_device}
use mimisbrunnr.Wal.Ring.Refine.Reclaim.{uncovered}
use mimisbrunnr.Wal.Ring.Refine.Recover.{
  Recovers, torn_sector-Recovers, append_raw-Recovers, appended_ring, appended_device,
  appended-Recovers, checkpoint-Recovers, torn_header-Recovers,
}
use mimisbrunnr.Wal.Ring.Refine.History.{History, behind_device}
use mimisbrunnr.Wal.Ring.Refine.Flush.{with_mem}
use mimisbrunnr.Wal.Ring.Refine.Durable.{copy_at, outranks}
use mimisbrunnr.Wal.Ring.Refine.Format.{ring, device, ring-Recovers, format-Recovers}

total : List ℕ → ℕ
total [] = 0
total (b ∷ bs) = b + total bs

-- A checksum that stands for CRC32C.
checksum : List ℕ → ℕ
checksum bs = total bs % 2 ^ 32

checksum_lt : (bs : List ℕ) → checksum bs < 2 ^ 32
unfolding checksum
checksum_lt bs = mod-lt (total bs) (omega arith)

abbrev empty_device : Device
empty_device = record { mem = λ _. 0; capacity = 12288; is_read_only = false }

valid_size : size_is_invalid 12288 ≡ false
unfolding size_is_invalid
valid_size = ground arith

format-Recovers_example :
    (w : Wal) × (d' : Device) × (format checksum empty_device 0 12288 ≡ (d', ok w))
    × Recovers checksum checksum_lt w d' []
format-Recovers_example =
    format-Recovers checksum checksum_lt empty_device 0 12288 valid_size (omega arith) (omega arith)
      refl

-- The formatted ring.
abbrev ring_0 : Wal
ring_0 = ring checksum checksum_lt 0 12288

abbrev device_0 : Device
device_0 = device checksum checksum_lt empty_device 0

ring_0-Recovers : Recovers checksum checksum_lt ring_0 device_0 []
ring_0-Recovers =
    ring-Recovers checksum checksum_lt empty_device 0 12288 valid_size (omega arith) (omega arith)
      refl

abbrev payload : List ℕ
payload = 1 ∷ 2 ∷ 3 ∷ []

abbrev stamp : HybridTimestamp
stamp = new_timestamp (pos 1000) 0 5

can_append : CanAppend checksum ring_0 device_0 7 payload stamp 0
unfolding ring device data_capacity data_sectors default_header recompute_crc
can_append = record {
  writable = refl;
  device_writable = refl;
  plain = refl;
  uncompressed = refl;
  short = omega arith;
  room = omega arith;
  lsn_room = omega arith;
  op_kind_u8 = omega arith;
  flags_u16 = omega arith;
  physical_i64 = omega arith;
  logical_u16 = omega arith;
  node_u16 = omega arith;
  generation_room = omega arith;
}

-- The entry of the first append.
abbrev entry_1 : WalEntry
entry_1 = new_entry checksum ring_0 7 payload stamp 0

append_raw-Recovers_example :
    (w' : Wal) × (d' : Device) × (append_raw checksum 7 payload stamp 0 ring_0 device_0
      ≡ record { wal = w'; device = d'; result = ok ring_0.header.next_lsn })
    × Recovers checksum checksum_lt w' d' (entry_1 ∷ [])
append_raw-Recovers_example =
    append_raw-Recovers checksum checksum_lt ring_0 device_0 [] 7 payload stamp 0 ring_0-Recovers
      can_append

-- A sector of which two bytes have reached the disk.
torn_sector-Recovers_example :
    (open_ring checksum
        (with_mem device_0 (
          write_bytes device_0.mem
            (data_offset ring_0 + ring_0.header.write_cursor)
            (87 ∷ 65 ∷ [])))
        ring_0.base
        ring_0.size
      ≡ ok ring_0)
    × Recovers checksum checksum_lt ring_0
        (with_mem device_0 (
          write_bytes device_0.mem
            (data_offset ring_0 + ring_0.header.write_cursor)
            (87 ∷ 65 ∷ [])))
        []
torn_sector-Recovers_example =
    torn_sector-Recovers checksum checksum_lt ring_0 device_0 [] (87 ∷ 65 ∷ []) (omega arith)
      can_append.room ring_0-Recovers

-- The ring behind the first append.
abbrev ring_1 : Wal
ring_1 =
    appended_ring checksum checksum_lt ring_0 device_0 [] 7 payload stamp 0 ring_0-Recovers
      can_append

abbrev device_1 : Device
device_1 =
    appended_device checksum checksum_lt ring_0 device_0 [] 7 payload stamp 0 ring_0-Recovers
      can_append

ring_1-Recovers : Recovers checksum checksum_lt ring_1 device_1 (entry_1 ∷ [])
ring_1-Recovers =
    appended-Recovers checksum checksum_lt ring_0 device_0 [] 7 payload stamp 0 ring_0-Recovers
      can_append

replay_example :
    drain checksum 5 device_1 (iter_from ring_1 1)
    ≡ map ok (keep (λ e. leb 1 e.header.lsn) (entry_1 ∷ []))
replay_example =
    replay checksum checksum_lt ring_1 device_1 (entry_1 ∷ []) 1 5 ring_1-Recovers.holds
      (omega arith)

ring_1_generation : ring_1.header.header.generation + 1 < 2 ^ 64
unfolding ring advanced recompute_crc
ring_1_generation = omega arith

checkpoint-Recovers_example :
    (w' : Wal) × (d' : Device) × (checkpoint checksum 1 ring_1 device_1
      ≡ record { wal = w'; device = d'; result = ok (1 - length (uncovered 1 (entry_1 ∷ []))) })
    × (w'.header.last_checkpoint_lsn ≡ 1)
    × Recovers checksum checksum_lt w' d' (uncovered 1 (entry_1 ∷ []))
unfolding device
checkpoint-Recovers_example =
    checkpoint-Recovers checksum checksum_lt ring_1 device_1 (entry_1 ∷ []) 1 ring_1-Recovers refl
      ring_1_generation (omega arith)

-- No byte of the header block is written.
untorn :
    outranks checksum ring_1.header (
      copy_at ring_1
        (with_mem device_1
          (write_bytes device_1.mem (header_slot_offset ring_1 (other_slot ring_1.active_slot)) []))
        (other_slot ring_1.active_slot))
    ≡ false
unfolding write_bytes
untorn = ring_1-Recovers.on_disk.older

torn_header-Recovers_example :
    (open_ring checksum
        (with_mem device_1
          (write_bytes device_1.mem (header_slot_offset ring_1 (other_slot ring_1.active_slot)) []))
        ring_1.base
        ring_1.size
      ≡ ok ring_1)
    × Recovers checksum checksum_lt ring_1
        (with_mem device_1
          (write_bytes device_1.mem (header_slot_offset ring_1 (other_slot ring_1.active_slot)) []))
        (entry_1 ∷ [])
torn_header-Recovers_example =
    torn_header-Recovers checksum checksum_lt ring_1 device_1 (entry_1 ∷ []) [] (omega arith) untorn
      ring_1-Recovers

-- The device on which two bytes of a sector have been written at a crash.
abbrev device_c : Device
device_c = behind_device ring_0 device_0 (87 ∷ 65 ∷ [])

crash-Recovers :
    (open_ring checksum device_c ring_0.base ring_0.size ≡ ok ring_0)
    × Recovers checksum checksum_lt ring_0 device_c []
crash-Recovers =
    torn_sector-Recovers checksum checksum_lt ring_0 device_0 [] (87 ∷ 65 ∷ []) (omega arith)
      can_append.room ring_0-Recovers

CanAppend-again : CanAppend checksum ring_0 device_c 7 payload stamp 0
CanAppend-again = record {
  writable = can_append.writable;
  device_writable = can_append.device_writable;
  plain = can_append.plain;
  uncompressed = can_append.uncompressed;
  short = can_append.short;
  room = can_append.room;
  lsn_room = can_append.lsn_room;
  op_kind_u8 = can_append.op_kind_u8;
  flags_u16 = can_append.flags_u16;
  physical_i64 = can_append.physical_i64;
  logical_u16 = can_append.logical_u16;
  node_u16 = can_append.node_u16;
  generation_room = can_append.generation_room;
}

abbrev ring_2 : Wal
ring_2 =
    appended_ring checksum checksum_lt ring_0 device_c [] 7 payload stamp 0 crash-Recovers.1
      CanAppend-again

abbrev device_2 : Device
device_2 =
    appended_device checksum checksum_lt ring_0 device_c [] 7 payload stamp 0 crash-Recovers.1
      CanAppend-again
