-- ===== src/Wal/Ring/Open.antt =====
-- `format`, `open`, `open_read_only` and `flush_header` of `crates/wal/src/ring.rs`.
use mimisbrunnr.Base.{
  ℕ, ◌+◌, ◌*◌, ◌^◌, List, Bool, true, false, Result, ok, err, map_err, ltb, ◌==◌, if◌then◌else◌,
  ◌&&◌,
}
use mimisbrunnr.Base
use mimisbrunnr.Storage.Block.{BlockHeader, block_size}
use mimisbrunnr.Storage.Device.Image
use mimisbrunnr.Storage.Device.Image.{Device}
use mimisbrunnr.Wal.Error.{WalError, storage, lsn_overflow, no_valid_header, invalid_size}
use mimisbrunnr.Wal.Header.{
  WalHeader, default_header, header_bytes, header_of_bytes, recompute_crc, verify_crc, verify_kind,
}
use mimisbrunnr.Wal.Ring.State.{
  Wal, header_slot_a, header_slot_b, header_slot_offset, size_is_invalid,
}
use mimisbrunnr.Wal.Ring.Monad.{Method, ◌>>=◌, ◌>>◌, guard, get_wal, put_wal, write_at, sync}

abbrev pub with_generation : WalHeader → ℕ → WalHeader
with_generation h g =
    let b : BlockHeader = h.header in record h { header = record b { generation = g } }

abbrev pub other_slot : ℕ → ℕ
other_slot slot = if slot == header_slot_a then header_slot_b else header_slot_a

abbrev pub is_ok : Result WalError (Unit {0}) → Bool
is_ok (ok _) = true
is_ok (err _) = false

module _ (crc32c : List ℕ → ℕ) where
  unfoldable pub write_header_to : ℕ → Method (Unit {0})
  write_header_to slot = do
    w ← get_wal
    write_at (header_slot_offset w slot) (header_bytes w.header)

  unfoldable pub flush_header : Method (Unit {0})
  unfolding write_header_to
  flush_header = do
    w ← get_wal
    guard (ltb (w.header.header.generation + 1) (2 ^ 64)) lsn_overflow
    let h = recompute_crc crc32c (with_generation w.header (w.header.header.generation + 1))
    put_wal (record w { header = h })
    write_header_to (other_slot w.active_slot)
    w' ← get_wal
    put_wal (record w' { active_slot = other_slot w.active_slot })

  -- The ring that `format` builds before its first write.
  unfoldable pub formatted : ℕ → ℕ → Wal
  formatted offset size = record {
    base = offset;
    size = size;
    header = recompute_crc crc32c (with_generation default_header 1);
    active_slot = header_slot_b;
    read_only = false;
  }

  -- `format` with its new ring in place: header A, then the older mirror in B.
  unfoldable pub format_ring : Method (Unit {0})
  unfolding write_header_to
  format_ring = do
    write_header_to header_slot_a
    w ← get_wal
    let mirror = recompute_crc crc32c (with_generation w.header 0)
    write_at (header_slot_offset w header_slot_b) (header_bytes mirror)
    put_wal (record w { active_slot = header_slot_a })
    sync

  unfoldable pub format : Device → ℕ → ℕ → Device × Result WalError Wal
  unfolding format_ring formatted
  format d offset size =
      if size_is_invalid size
      then (d, err (invalid_size size))
      else let o = format_ring (formatted offset size) d in
        (o.device, Base.map_ok (λ _. o.wal) o.result)

  -- `verify_kind().is_ok() && verify_crc().is_ok()`
  unfoldable pub is_valid_copy : WalHeader → Bool
  is_valid_copy h = is_ok (verify_kind h) && is_ok (verify_crc crc32c h)

  -- The choice between the two copies.
  unfoldable pub pick : WalHeader → WalHeader → Result WalError (WalHeader × ℕ)
  unfolding is_valid_copy
  pick a b =
      if is_valid_copy a
      then if is_valid_copy b && ltb a.header.generation b.header.generation
        then ok (b, header_slot_b)
        else ok (a, header_slot_a)
      else if is_valid_copy b
      then ok (b, header_slot_b)
      else err no_valid_header

  unfoldable pub open_ring : Device → ℕ → ℕ → Result WalError Wal
  unfolding pick
  open_ring d offset size =
      if size_is_invalid size
      then err (invalid_size size)
      else Base.◌>>=◌ (map_err storage (Image.read_at d offset block_size)) λ a.
        Base.◌>>=◌ (map_err storage (Image.read_at d (offset + block_size) block_size)) λ b.
          Base.◌>>=◌ (pick (header_of_bytes a) (header_of_bytes b)) λ c. ok (record {
            base = offset;
            size = size;
            header = c.0;
            active_slot = c.1;
            read_only = false;
          })

  unfoldable pub open_read_only : Device → ℕ → ℕ → Result WalError Wal
  unfolding open_ring
  open_read_only d offset size =
      Base.◌>>=◌ (open_ring d offset size) λ w. ok (record w { read_only = true })
