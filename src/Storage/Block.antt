-- ===== src/Storage/Block.antt =====
-- `crates/storage/src/block.rs`, `root_pointer.rs` and `addressing.rs`: the block header, the
-- reference to a block, and the split of a block number into a bucket and a place in it.
use mimisbrunnr.Base.{ℕ, ◌-◌, ◌/◌, ◌%◌, ◌^◌, List, [], ◌∷◌, Result, ok, err, if◌then◌else◌, ◌==◌}
use mimisbrunnr.Storage.Error.{StorageError, invalid_block_kind}

abbrev pub block_size : ℕ
block_size = 4096

abbrev pub block_size_log2 : ℕ
block_size_log2 = 12

-- `*b"MIMR"`
abbrev pub block_preamble_magic_block : List ℕ
block_preamble_magic_block = b'M' ∷ b'I' ∷ b'M' ∷ b'R' ∷ []

pub record BlockPreamble : Type 0 where
  pub magic : List ℕ
  pub kind : ℕ
  pub format_version : ℕ

pub record BlockHeader : Type 0 where
  pub pre : BlockPreamble
  pub payload_length : ℕ
  pub generation : ℕ
  pub lsn : ℕ
  pub flags : ℕ

pub data BlockKind : Type 0 where
  superblock zone_map pool_state_root wal_segment checkpoint tag_bitmap_page : BlockKind
  sequence_page ranked_page kv_hash_directory kv_hash_bucket overflow_record : BlockKind

-- `kind as u16`
unfoldable pub kind_to_u16 : BlockKind → ℕ
kind_to_u16 superblock = 0
kind_to_u16 zone_map = 1
kind_to_u16 pool_state_root = 2
kind_to_u16 wal_segment = 3
kind_to_u16 checkpoint = 4
kind_to_u16 tag_bitmap_page = 5
kind_to_u16 sequence_page = 6
kind_to_u16 ranked_page = 7
kind_to_u16 kv_hash_directory = 8
kind_to_u16 kv_hash_bucket = 9
kind_to_u16 overflow_record = 10

unfoldable pub kind_from_u16 : ℕ → Result StorageError BlockKind
kind_from_u16 v =
    if v == 0
    then ok superblock
    else if v == 1
    then ok zone_map
    else if v == 2
    then ok pool_state_root
    else if v == 3
    then ok wal_segment
    else if v == 4
    then ok checkpoint
    else if v == 5
    then ok tag_bitmap_page
    else if v == 6
    then ok sequence_page
    else if v == 7
    then ok ranked_page
    else if v == 8
    then ok kv_hash_directory
    else if v == 9
    then ok kv_hash_bucket
    else if v == 10
    then ok overflow_record
    else err (invalid_block_kind v)

-- `BlockHeader::new`
unfoldable pub new_header : BlockKind → ℕ → ℕ → BlockHeader
unfolding kind_to_u16
new_header kind format_version payload_length = record {
  pre = record {
    magic = block_preamble_magic_block;
    kind = kind_to_u16 kind;
    format_version = format_version;
  };
  payload_length = payload_length;
  generation = 0;
  lsn = 0;
  flags = 0;
}

pub record BlockRef : Type 0 where
  pub disk_id : ℕ
  pub pad : ℕ
  pub block_no : ℕ
  pub generation : ℕ

-- `BlockRef::default()`
abbrev pub null_ref : BlockRef
null_ref = record { disk_id = 0; pad = 0; block_no = 0; generation = 0 }

-- `block_no >> shift` and `block_no & ((1 << shift) - 1)` at `shift = bucket_size_log2 - 12`. The
-- code asserts that the shift does not go below 0.
unfoldable pub block_no_to_bucket : ℕ → ℕ → ℕ × ℕ
block_no_to_bucket block_no bucket_size_log2 =
    let shift = bucket_size_log2 - block_size_log2 in (block_no / 2 ^ shift, block_no % 2 ^ shift)
