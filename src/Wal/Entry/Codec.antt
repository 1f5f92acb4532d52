-- ===== src/Wal/Entry/Codec.antt =====
-- The byte image of the entry header of `crates/wal/src/entry.rs` is 40 bytes long and reads back.
use mimisbrunnr.Base.{
  ℕ, ◌^◌, ◌<◌, ◌≡◌, sym, ap, ◌∙◌, List, [], ◌++◌, length, length-append, take, drop, take-append,
  drop-append, le_bytes, length-le_bytes, from_le-le_bytes, take-le_bytes, drop-le_bytes,
  append-nil,
}
use mimisbrunnr.Base.Int.{i64_bits, IsI64, i64_of_bits-i64_bits, i64_bits-lt}
use mimisbrunnr.Wal.Entry.{WalEntryHeader, entry_bytes, entry_of_bytes}

-- Every field holds a value of its type.
pub record InRange (h : WalEntryHeader) : Type 0 where
  pub magic : length h.magic ≡ 4
  pub op_kind : h.op_kind < 2 ^ 8
  pub format_version : h.format_version < 2 ^ 8
  pub flags : h.flags < 2 ^ 16
  pub lsn : h.lsn < 2 ^ 64
  pub physical_ns : IsI64 h.timestamp.physical_ns
  pub logical : h.timestamp.logical < 2 ^ 16
  pub node_id : h.timestamp.node_id < 2 ^ 16
  pub pad : h.timestamp.pad < 2 ^ 32
  pub payload_length : h.payload_length < 2 ^ 32
  pub payload_crc : h.payload_crc < 2 ^ 32

-- A word behind others, or at the end.
pub take-le_bytes_end : (w x : ℕ) → take w (le_bytes w x) ≡ le_bytes w x
take-le_bytes_end w x = ap (take w) (sym (append-nil (le_bytes w x))) ∙ take-le_bytes w x []

pub length-entry_bytes : (h : WalEntryHeader) → length h.magic ≡ 4 → length (entry_bytes h) ≡ 40
unfolding entry_bytes
length-entry_bytes h m = simp (length-append, length-le_bytes, m)

pub entry_of_bytes-entry_bytes :
    (h : WalEntryHeader) → InRange h → entry_of_bytes (entry_bytes h) ≡ h
unfolding entry_bytes entry_of_bytes
entry_of_bytes-entry_bytes h v = simp (
  front,
  rest,
  take-le_bytes,
  drop-le_bytes,
  take-le_bytes_end,
  from_le-le_bytes 1 h.op_kind v.op_kind,
  from_le-le_bytes 1 h.format_version v.format_version,
  from_le-le_bytes 2 h.flags v.flags,
  from_le-le_bytes 8 h.lsn v.lsn,
  from_le-le_bytes 8 (i64_bits h.timestamp.physical_ns)
      (i64_bits-lt h.timestamp.physical_ns v.physical_ns),
  i64_of_bits-i64_bits h.timestamp.physical_ns v.physical_ns,
  from_le-le_bytes 2 h.timestamp.logical v.logical,
  from_le-le_bytes 2 h.timestamp.node_id v.node_id,
  from_le-le_bytes 4 h.timestamp.pad v.pad,
  from_le-le_bytes 4 h.payload_length v.payload_length,
  from_le-le_bytes 4 h.payload_crc v.payload_crc,
)
  where
    front : (r : List ℕ) → take 4 (h.magic ++ r) ≡ h.magic
    front r = take-append 4 h.magic r v.magic

    rest : (r : List ℕ) → drop 4 (h.magic ++ r) ≡ r
    rest r = drop-append 4 h.magic r v.magic
