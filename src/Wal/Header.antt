-- ===== src/Wal/Header.antt =====
-- `crates/wal/src/header.rs`: the 4 KiB header block of the ring, and its byte image. CRC32C is the
-- function of an outside crate, and so a parameter.
pub mod Codec
use mimisbrunnr.Base.{
  ℕ, ◌+◌, ◌-◌, ◌*◌, List, [], ◌∷◌, ◌++◌, Result, ok, err, map_err, ◌>>=◌, ◌>>◌, if◌then◌else◌, ◌==◌,
  le_bytes, from_le, zeros, take, drop,
}
use mimisbrunnr.Storage.Error.{StorageError}
use mimisbrunnr.Storage.Block.{
  BlockHeader, BlockPreamble, BlockKind, block_size, kind_from_u16, kind_to_u16, new_header,
  wal_segment,
}
use mimisbrunnr.Wal.Entry.{wal_entry_magic}
use mimisbrunnr.Wal.Error.{
  WalError, storage, invalid_magic, crc_mismatch, unsupported_format_version,
}

abbrev pub wal_header_format_version : ℕ
wal_header_format_version = 1

abbrev pub wal_header_reserved_len : ℕ
wal_header_reserved_len = 3996

-- `WalHeader::CRC_OFFSET`
abbrev pub crc_offset : ℕ
crc_offset = block_size - 4

pub record WalHeader : Type 0 where
  pub header : BlockHeader
  pub next_lsn : ℕ
  pub write_cursor : ℕ
  pub read_cursor : ℕ
  pub used_bytes : ℕ
  pub last_checkpoint_lsn : ℕ
  pub segment_size : ℕ
  pub pad : ℕ
  pub encryption_keyid : List ℕ
  pub reserved : List ℕ
  pub crc : ℕ

-- `WalHeader::default()`
unfoldable pub default_header : WalHeader
unfolding new_header
default_header = record {
  header = new_header wal_segment wal_header_format_version 0;
  next_lsn = 1;
  write_cursor = 0;
  read_cursor = 0;
  used_bytes = 0;
  last_checkpoint_lsn = 0;
  segment_size = 1024 * 1024;
  pad = 0;
  encryption_keyid = zeros 16;
  reserved = zeros wal_header_reserved_len;
  crc = 0;
}

-- The 32 bytes of the block header.
unfoldable pub block_header_bytes : BlockHeader → List ℕ
block_header_bytes b =
    b.pre.magic
    ++ (le_bytes 2 b.pre.kind
        ++ (le_bytes 2 b.pre.format_version
            ++ (le_bytes 4 b.payload_length
                ++ (le_bytes 8 b.generation ++ (le_bytes 8 b.lsn ++ le_bytes 4 b.flags)))))

-- The bytes `[0..4092]`, in front of the checksum.
unfoldable pub body_bytes : WalHeader → List ℕ
body_bytes h =
    block_header_bytes h.header
    ++ (le_bytes 8 h.next_lsn
        ++ (le_bytes 8 h.write_cursor
            ++ (le_bytes 8 h.read_cursor
                ++ (le_bytes 8 h.used_bytes
                    ++ (le_bytes 8 h.last_checkpoint_lsn
                        ++ (le_bytes 4 h.segment_size
                            ++ (le_bytes 4 h.pad ++ (h.encryption_keyid ++ h.reserved))))))))

-- `bytemuck::bytes_of` of the packed struct.
unfoldable pub header_bytes : WalHeader → List ℕ
header_bytes h = body_bytes h ++ le_bytes 4 h.crc

unfoldable pub block_header_of_bytes : List ℕ → BlockHeader
block_header_of_bytes b0 =
    let b4 = drop 4 b0 in
    let b6 = drop 2 b4 in
    let b8 = drop 2 b6 in
    let b12 = drop 4 b8 in
    let b20 = drop 8 b12 in
    let b28 = drop 8 b20 in
    record {
      pre = record {
        magic = take 4 b0;
        kind = from_le (take 2 b4);
        format_version = from_le (take 2 b6);
      };
      payload_length = from_le (take 4 b8);
      generation = from_le (take 8 b12);
      lsn = from_le (take 8 b20);
      flags = from_le (take 4 b28);
    }

-- `bytemuck::from_bytes` of 4096 bytes.
unfoldable pub header_of_bytes : List ℕ → WalHeader
unfolding block_header_of_bytes
header_of_bytes b0 =
    let b32 = drop 32 b0 in
    let b40 = drop 8 b32 in
    let b48 = drop 8 b40 in
    let b56 = drop 8 b48 in
    let b64 = drop 8 b56 in
    let b72 = drop 8 b64 in
    let b76 = drop 4 b72 in
    let b80 = drop 4 b76 in
    let b96 = drop 16 b80 in
    let b4092 = drop wal_header_reserved_len b96 in
    record {
      header = block_header_of_bytes (take 32 b0);
      next_lsn = from_le (take 8 b32);
      write_cursor = from_le (take 8 b40);
      read_cursor = from_le (take 8 b48);
      used_bytes = from_le (take 8 b56);
      last_checkpoint_lsn = from_le (take 8 b64);
      segment_size = from_le (take 4 b72);
      pad = from_le (take 4 b76);
      encryption_keyid = take 16 b80;
      reserved = take wal_header_reserved_len b96;
      crc = from_le (take 4 b4092);
    }

module _ (crc32c : List ℕ → ℕ) where
  -- The checksum of the image with a zeroed slot.
  unfoldable pub header_crc : WalHeader → ℕ
  unfolding header_bytes
  header_crc h = crc32c (take crc_offset (header_bytes (record h { crc = 0 })))

  unfoldable pub recompute_crc : WalHeader → WalHeader
  recompute_crc h = record h { crc = header_crc h }

  unfoldable pub verify_crc : WalHeader → Result WalError (Unit {0})
  verify_crc h = if h.crc == header_crc h then ok tt else err (crc_mismatch h.crc (header_crc h))

-- `kind != BlockKind::WalSegment`, then the version.
unfoldable pub verify_kind_of : WalHeader → BlockKind → Result WalError (Unit {0})
verify_kind_of h BlockKind.wal_segment =
    if h.header.pre.format_version == wal_header_format_version
    then ok tt
    else err (unsupported_format_version h.header.pre.format_version)
verify_kind_of h _ = err (invalid_magic wal_entry_magic (0 ∷ 0 ∷ 0 ∷ 0 ∷ []))

unfoldable pub verify_kind : WalHeader → Result WalError (Unit {0})
unfolding kind_from_u16 verify_kind_of
verify_kind h = map_err storage (kind_from_u16 h.header.pre.kind) >>= verify_kind_of h
