-- ===== src/Wal/Entry.antt =====
-- `crates/wal/src/entry.rs`: the 40-byte entry header and its byte image.
pub mod Codec
use Prim.Native.Nat.{bit_or}
use mimisbrunnr.Base.{
  ℕ, ◌+◌, ◌-◌, List, [], ◌∷◌, ◌++◌, Result, ok, err, if◌then◌else◌, bytes_eq, le_bytes, from_le,
  take, drop,
}
use mimisbrunnr.Base.Int.{ℤ, i64_bits, i64_of_bits}
use mimisbrunnr.Types.Timestamp.{HybridTimestamp}
use mimisbrunnr.Storage.Block.{block_size}
use mimisbrunnr.Wal.Error.{WalError, invalid_magic}

-- `*b"WALR"`
abbrev pub wal_entry_magic : List ℕ
wal_entry_magic = b'W' ∷ b'A' ∷ b'L' ∷ b'R' ∷ []

abbrev pub wal_entry_format_version : ℕ
wal_entry_format_version = 1

-- `core::mem::size_of::<WalEntryHeader>()`
abbrev pub wal_entry_header_len : ℕ
wal_entry_header_len = 40

abbrev pub wal_framing_crc_len : ℕ
wal_framing_crc_len = 4

-- 4096 - 40 - 4
abbrev pub wal_max_payload_plaintext : ℕ
wal_max_payload_plaintext = block_size - wal_entry_header_len - wal_framing_crc_len

abbrev pub wal_entry_flag_encrypted : ℕ
wal_entry_flag_encrypted = 1

abbrev pub wal_entry_flag_compressed : ℕ
wal_entry_flag_compressed = 2

pub record WalHybridTimestampWire : Type 0 where
  pub physical_ns : ℤ
  pub logical : ℕ
  pub node_id : ℕ
  pub pad : ℕ

unfoldable pub from_logical : HybridTimestamp → WalHybridTimestampWire
from_logical ts = record {
  physical_ns = ts.physical_ns;
  logical = ts.logical;
  node_id = ts.node_id;
  pad = 0;
}

unfoldable pub to_logical : WalHybridTimestampWire → HybridTimestamp
to_logical w = record { physical_ns = w.physical_ns; logical = w.logical; node_id = w.node_id }

pub record WalEntryHeader : Type 0 where
  pub magic : List ℕ
  pub op_kind : ℕ
  pub format_version : ℕ
  pub flags : ℕ
  pub lsn : ℕ
  pub timestamp : WalHybridTimestampWire
  pub payload_length : ℕ
  pub payload_crc : ℕ

-- `WalEntryHeader::new`; the kind is given by its discriminant.
unfoldable pub new_entry_header : ℕ → ℕ → ℕ → HybridTimestamp → ℕ → WalEntryHeader
unfolding from_logical
new_entry_header op_kind flags lsn timestamp payload_length = record {
  magic = wal_entry_magic;
  op_kind = op_kind;
  format_version = wal_entry_format_version;
  flags = flags;
  lsn = lsn;
  timestamp = from_logical timestamp;
  payload_length = payload_length;
  payload_crc = 0;
}

unfoldable pub check_magic : WalEntryHeader → Result WalError (Unit {0})
check_magic h =
    if bytes_eq h.magic wal_entry_magic then ok tt else err (invalid_magic wal_entry_magic h.magic)

-- `bytemuck::bytes_of` of the packed struct.
unfoldable pub entry_bytes : WalEntryHeader → List ℕ
entry_bytes h =
    h.magic
    ++ (le_bytes 1 h.op_kind
        ++ (le_bytes 1 h.format_version
            ++ (le_bytes 2 h.flags
                ++ (le_bytes 8 h.lsn
                    ++ (le_bytes 8 (i64_bits h.timestamp.physical_ns)
                        ++ (le_bytes 2 h.timestamp.logical
                            ++ (le_bytes 2 h.timestamp.node_id
                                ++ (le_bytes 4 h.timestamp.pad
                                    ++ (le_bytes 4 h.payload_length
                                        ++ le_bytes 4 h.payload_crc)))))))))

-- `bytemuck::from_bytes` of 40 bytes.
unfoldable pub entry_of_bytes : List ℕ → WalEntryHeader
entry_of_bytes b0 =
    let b4 = drop 4 b0 in
    let b5 = drop 1 b4 in
    let b6 = drop 1 b5 in
    let b8 = drop 2 b6 in
    let b16 = drop 8 b8 in
    let b24 = drop 8 b16 in
    let b26 = drop 2 b24 in
    let b28 = drop 2 b26 in
    let b32 = drop 4 b28 in
    let b36 = drop 4 b32 in
    record {
      magic = take 4 b0;
      op_kind = from_le (take 1 b4);
      format_version = from_le (take 1 b5);
      flags = from_le (take 2 b6);
      lsn = from_le (take 8 b8);
      timestamp = record {
        physical_ns = i64_of_bits (from_le (take 8 b16));
        logical = from_le (take 2 b24);
        node_id = from_le (take 2 b26);
        pad = from_le (take 4 b28);
      };
      payload_length = from_le (take 4 b32);
      payload_crc = from_le (take 4 b36);
    }
