-- ===== src/Wal/Header/Codec.antt =====
-- The byte image of the header block of `crates/wal/src/header.rs` is 4096 bytes long and reads back,
-- and a recomputed checksum verifies.
use mimisbrunnr.Base.{
  ℕ, ◌^◌, ◌<◌, ◌≡◌, List, ◌++◌, length, length-append, take, drop, take-append, drop-append,
  length-le_bytes, from_le-le_bytes, take-le_bytes, drop-le_bytes, arith, append_assoc, ok,
}
use mimisbrunnr.Storage.Block.{BlockHeader}
use mimisbrunnr.Wal.Entry.Codec.{take-le_bytes_end}
use mimisbrunnr.Wal.Header.{
  WalHeader, block_header_bytes, body_bytes, header_bytes, block_header_of_bytes, header_of_bytes,
  wal_header_reserved_len, crc_offset, header_crc, recompute_crc, verify_crc,
}

-- Every field of a block header holds a value of its type.
pub record BlockInRange (b : BlockHeader) : Type 0 where
  pub magic : length b.pre.magic ≡ 4
  pub kind : b.pre.kind < 2 ^ 16
  pub format_version : b.pre.format_version < 2 ^ 16
  pub payload_length : b.payload_length < 2 ^ 32
  pub generation : b.generation < 2 ^ 64
  pub lsn : b.lsn < 2 ^ 64
  pub flags : b.flags < 2 ^ 32

-- Every field of the header holds a value of its type.
pub record InRange (h : WalHeader) : Type 0 where
  pub header : BlockInRange h.header
  pub next_lsn : h.next_lsn < 2 ^ 64
  pub write_cursor : h.write_cursor < 2 ^ 64
  pub read_cursor : h.read_cursor < 2 ^ 64
  pub used_bytes : h.used_bytes < 2 ^ 64
  pub last_checkpoint_lsn : h.last_checkpoint_lsn < 2 ^ 64
  pub segment_size : h.segment_size < 2 ^ 32
  pub pad : h.pad < 2 ^ 32
  pub encryption_keyid : length h.encryption_keyid ≡ 16
  pub reserved : length h.reserved ≡ wal_header_reserved_len
  pub crc : h.crc < 2 ^ 32

length-block_header_bytes :
    (b : BlockHeader) → length b.pre.magic ≡ 4 → length (block_header_bytes b) ≡ 32
unfolding block_header_bytes
length-block_header_bytes b m = simp (length-append, length-le_bytes, m)

length-body_bytes : (h : WalHeader) → InRange h → length (body_bytes h) ≡ crc_offset
unfolding body_bytes
length-body_bytes h v = simp (
  length-append,
  length-le_bytes,
  length-block_header_bytes h.header v.header.magic,
  v.encryption_keyid,
  v.reserved,
)

pub length-header_bytes : (h : WalHeader) → InRange h → length (header_bytes h) ≡ 4096
unfolding header_bytes
length-header_bytes h v = simp (length-append, length-le_bytes, length-body_bytes h v)

block_header_of_bytes-block_header_bytes :
    (b : BlockHeader) → BlockInRange b → block_header_of_bytes (block_header_bytes b) ≡ b
unfolding block_header_bytes block_header_of_bytes
block_header_of_bytes-block_header_bytes b v = simp (
  front,
  rest,
  take-le_bytes,
  drop-le_bytes,
  take-le_bytes_end,
  from_le-le_bytes 2 b.pre.kind v.kind,
  from_le-le_bytes 2 b.pre.format_version v.format_version,
  from_le-le_bytes 4 b.payload_length v.payload_length,
  from_le-le_bytes 8 b.generation v.generation,
  from_le-le_bytes 8 b.lsn v.lsn,
  from_le-le_bytes 4 b.flags v.flags,
)
  where
    front : (r : List ℕ) → take 4 (b.pre.magic ++ r) ≡ b.pre.magic
    front r = take-append 4 b.pre.magic r v.magic

    rest : (r : List ℕ) → drop 4 (b.pre.magic ++ r) ≡ r
    rest r = drop-append 4 b.pre.magic r v.magic

-- Reading the header block back from its byte image yields the header, if every field holds a value of
-- its type.
pub header_of_bytes-header_bytes :
    (h : WalHeader) → InRange h → header_of_bytes (header_bytes h) ≡ h
unfolding header_bytes body_bytes header_of_bytes
header_of_bytes-header_bytes h v = simp (
  append_assoc,
  front,
  rest,
  key,
  key_rest,
  tail,
  tail_rest,
  take-le_bytes,
  drop-le_bytes,
  take-le_bytes_end,
  block_header_of_bytes-block_header_bytes h.header v.header,
  from_le-le_bytes 8 h.next_lsn v.next_lsn,
  from_le-le_bytes 8 h.write_cursor v.write_cursor,
  from_le-le_bytes 8 h.read_cursor v.read_cursor,
  from_le-le_bytes 8 h.used_bytes v.used_bytes,
  from_le-le_bytes 8 h.last_checkpoint_lsn v.last_checkpoint_lsn,
  from_le-le_bytes 4 h.segment_size v.segment_size,
  from_le-le_bytes 4 h.pad v.pad,
  from_le-le_bytes 4 h.crc v.crc,
)
  where
    front : (r : List ℕ) → take 32 (block_header_bytes h.header ++ r) ≡ block_header_bytes h.header
    front r =
        take-append 32 (block_header_bytes h.header) r
          (length-block_header_bytes h.header v.header.magic)

    rest : (r : List ℕ) → drop 32 (block_header_bytes h.header ++ r) ≡ r
    rest r =
        drop-append 32 (block_header_bytes h.header) r
          (length-block_header_bytes h.header v.header.magic)

    key : (r : List ℕ) → take 16 (h.encryption_keyid ++ r) ≡ h.encryption_keyid
    key r = take-append 16 h.encryption_keyid r v.encryption_keyid

    key_rest : (r : List ℕ) → drop 16 (h.encryption_keyid ++ r) ≡ r
    key_rest r = drop-append 16 h.encryption_keyid r v.encryption_keyid

    tail : (r : List ℕ) → take wal_header_reserved_len (h.reserved ++ r) ≡ h.reserved
    tail r = take-append wal_header_reserved_len h.reserved r v.reserved

    tail_rest : (r : List ℕ) → drop wal_header_reserved_len (h.reserved ++ r) ≡ r
    tail_rest r = drop-append wal_header_reserved_len h.reserved r v.reserved

-- A header whose checksum was recomputed passes `verify_crc`.
pub verify_crc-recompute_crc :
    (crc32c : List ℕ → ℕ) (h : WalHeader) → verify_crc crc32c (recompute_crc crc32c h) ≡ ok tt
unfolding verify_crc recompute_crc header_crc
verify_crc-recompute_crc crc32c h = ground arith
