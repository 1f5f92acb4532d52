-- ===== src/Wal/Ring/Refine/Format.antt =====
-- `format` of `crates/wal/src/ring.rs` makes an empty ring that `open` finds again.
use native.Mathlib.Nat.{mod-eq_of_lt}
use mimisbrunnr.Base.{
  ℕ, ◌+◌, ◌^◌, ◌≤◌, ◌<◌, ◌≡◌, refl, sym, ap, ◌∙◌, inl, List, [], length, length-zeros, true, false,
  ok, arith,
}
use mimisbrunnr.Storage.Block.{new_header, kind_to_u16}
use mimisbrunnr.Storage.Device.Image.{Device, write_bytes, sync}
use mimisbrunnr.Storage.Device.Laws.{read_bytes-write_bytes_self, read_bytes-write_bytes_apart}
use mimisbrunnr.Wal.Header.{
  WalHeader, default_header, header_bytes, header_of_bytes, header_crc, recompute_crc,
}
use mimisbrunnr.Wal.Header.Codec.{
  InRange, length-header_bytes, header_of_bytes-header_bytes, verify_crc-recompute_crc,
}
use mimisbrunnr.Wal.Ring.State.{Wal, header_slot_offset, size_is_invalid}
use mimisbrunnr.Wal.Ring.Open.{
  with_generation, write_header_to, formatted, format_ring, format, is_valid_copy,
}
use mimisbrunnr.Wal.Ring.Refine.Flush.{with_mem, write_at_inside}
use mimisbrunnr.Wal.Ring.Refine.Geometry.{data_area}
use mimisbrunnr.Wal.Ring.Refine.Queue.{Holds}
use mimisbrunnr.Wal.Ring.Refine.Durable.{OnDisk, copy_at, verify_kind_lem}
use mimisbrunnr.Wal.Ring.Refine.Recover.{Recovers}

module _ (crc32c : List ℕ → ℕ) (crc_lt : (bs : List ℕ) → crc32c bs < 2 ^ 32) where
  -- The header that `format` writes with this generation.
  abbrev fresh_header : ℕ → WalHeader
  fresh_header g = recompute_crc crc32c (with_generation default_header g)

  fresh_header-InRange : (g : ℕ) → g < 2 ^ 64 → InRange (fresh_header g)
  unfolding default_header recompute_crc new_header kind_to_u16 header_crc
  fresh_header-InRange g h = record {
    header = record {
      magic = refl;
      kind = omega arith;
      format_version = omega arith;
      payload_length = omega arith;
      generation = h;
      lsn = omega arith;
      flags = omega arith;
    };
    next_lsn = omega arith;
    write_cursor = omega arith;
    read_cursor = omega arith;
    used_bytes = omega arith;
    last_checkpoint_lsn = omega arith;
    segment_size = omega arith;
    pad = omega arith;
    encryption_keyid = length-zeros 16;
    reserved = length-zeros 3996;
    crc = crc_lt _;
  }

  fresh_header-is_valid_copy : (g : ℕ) → is_valid_copy crc32c (fresh_header g) ≡ true
  unfolding is_valid_copy
  fresh_header-is_valid_copy g = ground (
    arith,
    verify_kind_lem crc32c (fresh_header g),
    verify_crc-recompute_crc crc32c (with_generation default_header g),
    kind,
    version,
  )
    where
      kind : (fresh_header g).header.pre.kind ≡ 3
      kind = unfold recompute_crc default_header new_header kind_to_u16 in refl

      version : (fresh_header g).header.pre.format_version ≡ 1
      version = unfold recompute_crc default_header new_header in refl

  -- The ring that `format` returns, and the device behind its two header writes.
  unfoldable pub ring : ℕ → ℕ → Wal
  ring offset size = record {
    base = offset;
    size = size;
    header = fresh_header 1;
    active_slot = 0;
    read_only = false;
  }

  half_device : Device → ℕ → Device
  half_device d offset = with_mem d (write_bytes d.mem (offset + 0) (header_bytes (fresh_header 1)))

  unfoldable pub device : Device → ℕ → Device
  unfolding half_device
  device d offset =
      with_mem (half_device d offset)
        (write_bytes (half_device d offset).mem (offset + 4096) (header_bytes (fresh_header 0)))

  module _ (d : Device) (offset size : ℕ) (valid : size_is_invalid size ≡ false)
      (fits : offset + size ≤ d.capacity) (small : offset + size < 2 ^ 64)
      (writable : d.is_read_only ≡ false) where
    len : (g : ℕ) → g < 2 ^ 64 → length (header_bytes (fresh_header g)) ≡ 4096
    len g h = length-header_bytes (fresh_header g) (fresh_header-InRange g h)

    roomy : 12288 ≤ size
    unfolding size_is_invalid
    roomy = ground arith

    mirror : recompute_crc crc32c (with_generation (fresh_header 1) 0) ≡ fresh_header 0
    unfolding recompute_crc header_crc
    mirror = refl

    format_outcome : format crc32c d offset size ≡ ((device d offset), ok (ring offset size))
    unfolding format format_ring formatted write_header_to header_slot_offset sync ring half_device
        device
    format_outcome = ground (
      arith,
      valid,
      writable,
      ap header_bytes mirror,
      write_at_inside d (offset + 0) (header_bytes (fresh_header 1)) writable
          (omega (arith, len 1 (omega arith), fits, roomy)),
      write_at_inside (half_device d offset) (offset + 4096) (header_bytes (fresh_header 0))
          writable (omega (arith, len 0 (omega arith), fits, roomy)),
    )

    pub ring-Holds : Holds crc32c (ring offset size) (device d offset) []
    unfolding ring device half_device recompute_crc default_header
    ring-Holds =
        let (area, _, _, _) = data_area (ring offset size) valid in
        record {
          size = valid;
          on_device = fits;
          small = small;
          aligned = refl;
          inside = omega (arith, area, roomy);
          used = refl;
          room = omega arith;
          write_at = sym (mod-eq_of_lt (omega (arith, area, roomy)));
          in_range = fresh_header-InRange 1 (omega arith);
          slot = omega arith;
          lsns = omega arith;
          stored = tt;
        }

    other : copy_at (ring offset size) (device d offset) 1 ≡ fresh_header 0
    unfolding ring device header_slot_offset
    other =
        ap header_of_bytes (
          read_bytes-write_bytes_self (half_device d offset).mem (offset + 4096)
            (header_bytes (fresh_header 0)) 4096 (len 0 (omega arith)))
        ∙ header_of_bytes-header_bytes (fresh_header 0) (fresh_header-InRange 0 (omega arith))

    generations :
        ((fresh_header 0).header.generation ≡ 0) × ((fresh_header 1).header.generation ≡ 1)
    unfolding recompute_crc
    generations = (refl, refl)

    pub ring-OnDisk : OnDisk crc32c (ring offset size) (device d offset)
    unfolding ring device half_device header_slot_offset
    ring-OnDisk = record {
      writable = refl;
      size = valid;
      on_device = fits;
      slot = omega arith;
      active =
          ap header_of_bytes (
            read_bytes-write_bytes_apart (half_device d offset).mem (offset + 4096)
              (header_bytes (fresh_header 0)) (offset + 0) 4096 (inl (omega arith))
            ∙ read_bytes-write_bytes_self d.mem (offset + 0) (header_bytes (fresh_header 1)) 4096
                (len 1 (omega arith)))
          ∙ header_of_bytes-header_bytes (fresh_header 1) (fresh_header-InRange 1 (omega arith));
      valid = fresh_header-is_valid_copy 1;
      older = ground (arith, other, generations);
    }

    pub ring-Recovers : Recovers crc32c crc_lt (ring offset size) (device d offset) []
    ring-Recovers = record { holds = ring-Holds; on_disk = ring-OnDisk }

    -- `format` of a valid size on a writable device with room returns an empty ring that `open` finds.
    pub format-Recovers :
        (w : Wal) × (d' : Device) × (format crc32c d offset size ≡ (d', ok w))
        × Recovers crc32c crc_lt w d' []
    format-Recovers = (ring offset size, device d offset, format_outcome, ring-Recovers)
