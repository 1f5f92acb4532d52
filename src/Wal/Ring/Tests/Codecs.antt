-- ===== src/Wal/Ring/Tests/Codecs.antt =====
-- The byte images of `crates/wal` of the first entry and of its ring's header.
use mimisbrunnr.Base.{◌≡◌, ok}
use mimisbrunnr.Wal.Ring.Refine.Sector.{IsFramed, image, decode_sector-image}
use mimisbrunnr.Wal.Ring.Iter.{decode_sector}
use mimisbrunnr.Wal.Ring.Refine.AppendStep.{new_entry-IsFramed}
use mimisbrunnr.Wal.Ring.Tests.{
  checksum, checksum_lt, payload, stamp, ring_0, device_0, can_append, entry_1,
}

entry_1-IsFramed : IsFramed checksum entry_1
entry_1-IsFramed =
    new_entry-IsFramed checksum checksum_lt ring_0 device_0 7 payload stamp 0 can_append

decode_sector-image_example : decode_sector checksum (image checksum entry_1) ≡ ok entry_1
decode_sector-image_example = decode_sector-image checksum checksum_lt entry_1 entry_1-IsFramed
