-- ===== src/Wal/Ring/Refine/Durable.antt =====
-- `open` of `crates/wal/src/ring.rs` finds the ring that the last completed header write has left: the
-- copy of the active slot wins over the other one.
use mimisbrunnr.Base.{
  ℕ, ◌+◌, ◌*◌, ◌^◌, ◌≤◌, ◌<◌, ◌≡◌, sym, ap, ◌∙◌, ◌⊎◌, inl, inr, List, length, Bool, true, false,
  ◌&&◌, leb, ◌==◌, ok, arith,
}
use mimisbrunnr.Storage.Block.{kind_from_u16}
use mimisbrunnr.Storage.Device.Image.{Device, read_bytes, write_bytes}
use mimisbrunnr.Storage.Device.Laws.{read_bytes-write_bytes_self, read_bytes-write_bytes_apart}
use mimisbrunnr.Wal.Header.{
  WalHeader, header_bytes, header_of_bytes, recompute_crc, verify_kind, verify_kind_of,
}
use mimisbrunnr.Wal.Header.Codec.{
  InRange, length-header_bytes, header_of_bytes-header_bytes, verify_crc-recompute_crc,
}
use mimisbrunnr.Wal.Ring.State.{Wal, header_slot_offset, size_is_invalid}
use mimisbrunnr.Wal.Ring.Open.{other_slot, with_generation, is_valid_copy, pick, open_ring, is_ok}
use mimisbrunnr.Wal.Ring.Refine.Replay.{read_at_inside}
use mimisbrunnr.Wal.Ring.Refine.Flush.{
  with_mem, next_header, flushed, flushed_device, flushed-InRange,
}

abbrev pub copy_at : Wal → Device → ℕ → WalHeader
copy_at w d slot = header_of_bytes (read_bytes d.mem (header_slot_offset w slot) 4096)

module _ (crc32c : List ℕ → ℕ) where
  -- A copy that `open` would prefer to the header `h` or could confuse with it.
  abbrev pub outranks : WalHeader → WalHeader → Bool
  outranks h c = is_valid_copy crc32c c && leb h.header.generation c.header.generation

  -- The header of `w` is in its active slot, and the copy in the other slot is older or broken.
  pub record OnDisk (w : Wal) (d : Device) : Type 0 where
    pub writable : w.read_only ≡ false
    pub size : size_is_invalid w.size ≡ false
    pub on_device : w.base + w.size ≤ d.capacity
    pub slot : w.active_slot ≤ 1
    pub active : copy_at w d w.active_slot ≡ w.header
    pub valid : is_valid_copy crc32c w.header ≡ true
    pub older : outranks w.header (copy_at w d (other_slot w.active_slot)) ≡ false

  pick_first :
      (a b : WalHeader)
      → is_valid_copy crc32c a ≡ true
      → outranks a b ≡ false
      → pick crc32c a b ≡ ok (a, 0)
  unfolding pick
  pick_first a b v o = ground (arith, v, o)

  pick_second :
      (a b : WalHeader)
      → is_valid_copy crc32c b ≡ true
      → outranks b a ≡ false
      → pick crc32c a b ≡ ok (b, 1)
  unfolding pick
  pick_second a b v o = ground (arith, v, o)

  open_ring_lem :
      (d : Device) (w : Wal)
      → size_is_invalid w.size ≡ false
      → w.base + w.size ≤ d.capacity
      → w.read_only ≡ false
      → pick crc32c (copy_at w d 0) (copy_at w d 1) ≡ ok (w.header, w.active_slot)
      → open_ring crc32c d w.base w.size ≡ ok w
  open_ring_lem d w size fits writable picked =
      found ∙ ap (λ b. ok (record w { read_only = b })) (sym writable)
    where
      found : open_ring crc32c d w.base w.size ≡ ok (record w { read_only = false })
      found =
          unfold open_ring header_slot_offset size_is_invalid in
          ground (
            arith,
            picked,
            read_at_inside d w.base 4096 (ground arith),
            read_at_inside d (w.base + 4096) 4096 (ground arith),
          )

  slot_cases : (w : Wal) → w.active_slot ≤ 1 → (w.active_slot ≡ 0) ⊎ (w.active_slot ≡ 1)
  slot_cases w h = omega arith

  -- `open` on a device on which a writable ring is on disk returns that ring.
  pub open_ring-OnDisk :
      (w : Wal) (d : Device) → OnDisk w d → open_ring crc32c d w.base w.size ≡ ok w
  open_ring-OnDisk w d v = open_ring_lem d w v.size v.on_device v.writable picked
    where
      picked : pick crc32c (copy_at w d 0) (copy_at w d 1) ≡ ok (w.header, w.active_slot)
      picked = elim (slot_cases w v.slot) [
        | inl a ↦
            ap (λ h. pick crc32c h (copy_at w d 1)) (sym (ap (copy_at w d) a) ∙ v.active)
            ∙ pick_first w.header (copy_at w d 1) v.valid
                (ap (λ s. outranks w.header (copy_at w d s)) (sym (ap other_slot a)) ∙ v.older)
            ∙ ap (λ s. ok (w.header, s)) (sym a)
        | inr b ↦
            ap (pick crc32c (copy_at w d 0)) (sym (ap (copy_at w d) b) ∙ v.active)
            ∙ pick_second (copy_at w d 0) w.header v.valid
                (ap (λ s. outranks w.header (copy_at w d s)) (sym (ap other_slot b)) ∙ v.older)
            ∙ ap (λ s. ok (w.header, s)) (sym b)
      ]

  -- A write past the two header blocks leaves the ring on disk.
  pub OnDisk-write_data :
      (w : Wal) (d : Device) (i : ℕ) (bs : List ℕ)
      → w.base + 8192 ≤ i
      → OnDisk w d
      → OnDisk w (with_mem d (write_bytes d.mem i bs))
  unfolding header_slot_offset
  OnDisk-write_data w d i bs h v = record {
    writable = v.writable;
    size = v.size;
    on_device = v.on_device;
    slot = v.slot;
    active =
        ap header_of_bytes (
          read_bytes-write_bytes_apart d.mem i bs (w.base + w.active_slot * 4096) 4096
            (inl (omega (arith, v.slot))))
        ∙ v.active;
    valid = v.valid;
    older =
        ap (λ b. outranks w.header (header_of_bytes b))
          (read_bytes-write_bytes_apart d.mem i bs (w.base + other_slot w.active_slot * 4096) 4096
            (inl (ground (arith, v.slot))))
        ∙ v.older;
  }

  -- A write into the inactive slot that does not leave a valid copy of a later generation, such as a torn
  -- write of a header, leaves the ring on disk.
  pub OnDisk-torn :
      (w : Wal) (d : Device) (bs : List ℕ)
      → length bs ≤ 4096
      → outranks w.header (
          copy_at w
            (with_mem d (write_bytes d.mem (header_slot_offset w (other_slot w.active_slot)) bs))
            (other_slot w.active_slot))
        ≡ false
      → OnDisk w d
      → OnDisk w
          (with_mem d (write_bytes d.mem (header_slot_offset w (other_slot w.active_slot)) bs))
  unfolding header_slot_offset
  OnDisk-torn w d bs h o v = record {
    writable = v.writable;
    size = v.size;
    on_device = v.on_device;
    slot = v.slot;
    active =
        ap header_of_bytes (
          read_bytes-write_bytes_apart d.mem (w.base + other_slot w.active_slot * 4096) bs
            (w.base + w.active_slot * 4096) 4096 (ground (arith, v.slot)))
        ∙ v.active;
    valid = v.valid;
    older = o;
  }

  -- `verify_kind` accepts exactly the segment headers of format version 1.
  pub verify_kind_lem :
      (h : WalHeader)
      → is_ok (verify_kind h) ≡ (h.header.pre.kind == 3) && (h.header.pre.format_version == 1)
  unfolding verify_kind verify_kind_of kind_from_u16
  verify_kind_lem h = ground arith

  pub next_header-is_valid_copy :
      (w : Wal) (h : WalHeader)
      → w.header.header ≡ h.header
      → is_valid_copy crc32c h ≡ true
      → is_valid_copy crc32c (next_header crc32c w) ≡ true
  unfolding is_valid_copy
  next_header-is_valid_copy w h same v = ground (
    arith,
    verify_kind_lem h,
    verify_kind_lem (next_header crc32c w),
    verify_crc-recompute_crc crc32c (with_generation w.header (w.header.header.generation + 1)),
    kind,
    version,
  )
    where
      kind : (next_header crc32c w).header.pre.kind ≡ h.header.pre.kind
      kind = unfold recompute_crc in ap (λ b. b.pre.kind) same

      version : (next_header crc32c w).header.pre.format_version ≡ h.header.pre.format_version
      version = unfold recompute_crc in ap (λ b. b.pre.format_version) same

  module _ (crc_lt : (bs : List ℕ) → crc32c bs < 2 ^ 32) where
    -- A header write of a changed ring puts the changed ring on disk.
    pub flush-OnDisk :
        (w w' : Wal) (d : Device)
        → OnDisk w d
        → InRange w'.header
        → w'.base ≡ w.base
        → w'.size ≡ w.size
        → w'.active_slot ≡ w.active_slot
        → w'.read_only ≡ false
        → w'.header.header ≡ w.header.header
        → w.header.header.generation + 1 < 2 ^ 64
        → OnDisk (flushed crc32c w') (flushed_device crc32c w' d)
    unfolding recompute_crc header_slot_offset is_valid_copy
    flush-OnDisk w w' d v ranges base size slot writable same room =
        let gen : w'.header.header.generation ≡ w.header.header.generation =
          ap (λ b. b.generation) same in
        let in_range = flushed-InRange crc32c crc_lt w' ranges (omega (arith, gen, room)) in
        let len : length (header_bytes (next_header crc32c w')) ≡ 4096 =
          length-header_bytes (next_header crc32c w') in_range in
        let back : copy_at w' (flushed_device crc32c w' d) (other_slot (other_slot w'.active_slot))
            ≡ w.header =
          ap header_of_bytes (
            read_bytes-write_bytes_apart d.mem (header_slot_offset w' (other_slot w'.active_slot))
              (header_bytes (next_header crc32c w'))
              (header_slot_offset w' (other_slot (other_slot w'.active_slot))) 4096
              (ground (arith, slot, len, v.slot)))
          ∙ ap (λ i. header_of_bytes (read_bytes d.mem i 4096)) (ground (arith, slot, base, v.slot))
          ∙ v.active in
        record {
          writable = writable;
          size = ap size_is_invalid size ∙ v.size;
          on_device = omega (arith, base, size, v.on_device);
          slot = ground arith;
          active =
              ap header_of_bytes (
                read_bytes-write_bytes_self d.mem
                  (header_slot_offset w' (other_slot w'.active_slot))
                  (header_bytes (next_header crc32c w')) 4096 len)
              ∙ header_of_bytes-header_bytes (next_header crc32c w') in_range;
          valid = next_header-is_valid_copy w' w.header same v.valid;
          older = ground (arith, gen, back);
        }
