-- ===== src/Index/KvDirectory.antt =====
-- `crates/index/src/kv_directory.rs`: the directory of a hash index, with up to 252 places for references
-- to buckets. Its checksum and its device image are not modelled here.
pub mod Laws
mod Tests
use mimisbrunnr.Base.{
  ℕ, zero, suc, ◌-◌, ◌^◌, min, List, [], ◌∷◌, get_or, set, replicate, Bool, Result, ok, err,
  if◌then◌else◌, ltb, ◌==◌, not, bytes_eq,
}
use mimisbrunnr.Storage.Block.{
  BlockHeader, BlockRef, null_ref, block_size, block_preamble_magic_block, new_header, kind_to_u16,
  kv_hash_directory,
}

abbrev pub kv_directory_inline_entries : ℕ
kv_directory_inline_entries = 252

abbrev pub kv_directory_max_inline_depth : ℕ
kv_directory_max_inline_depth = 7

abbrev pub kv_directory_format_version : ℕ
kv_directory_format_version = 1

-- The array of 252 entries is a list, and the two pads are always zero.
pub record KvDirectoryBlock : Type 0 where
  pub header : BlockHeader
  pub global_depth : ℕ
  pub bucket_count : ℕ
  pub entries : List BlockRef
  pub spillover_root : BlockRef
  pub crc : ℕ

pub data KvDirectoryError : Type 0 where
  crc_mismatch : (expected actual : ℕ) → KvDirectoryError
  invalid_magic : (actual : List ℕ) → KvDirectoryError
  invalid_block_kind invalid_format_version spillover_unsupported : ℕ → KvDirectoryError
  inconsistent_bucket_count : (got expected : ℕ) → KvDirectoryError

-- The block that `new` builds.
unfoldable pub fresh : ℕ → KvDirectoryBlock
fresh global_depth = record {
  header = new_header kv_hash_directory kv_directory_format_version (block_size - 32 - 4);
  global_depth = global_depth;
  bucket_count = 2 ^ global_depth;
  entries = replicate kv_directory_inline_entries null_ref;
  spillover_root = null_ref;
  crc = 0;
}

unfoldable pub new : ℕ → Result KvDirectoryError KvDirectoryBlock
unfolding fresh
new global_depth =
    if ltb kv_directory_max_inline_depth global_depth
    then err (spillover_unsupported global_depth)
    else ok (fresh global_depth)

unfoldable pub count : KvDirectoryBlock → ℕ
count b = b.bucket_count

unfoldable pub set_entry : KvDirectoryBlock → ℕ → BlockRef → KvDirectoryBlock
set_entry b idx block_ref =
    if ltb idx (min b.bucket_count kv_directory_inline_entries)
    then record b { entries = set b.entries idx block_ref }
    else b

unfoldable pub get_entry : KvDirectoryBlock → ℕ → BlockRef
get_entry b idx =
    if ltb idx (min b.bucket_count kv_directory_inline_entries)
    then get_or b.entries idx null_ref
    else null_ref

unfoldable pub validate : KvDirectoryBlock → Result KvDirectoryError (Unit {0})
unfolding kind_to_u16
validate b =
    if not (bytes_eq b.header.pre.magic block_preamble_magic_block)
    then err (invalid_magic b.header.pre.magic)
    else if not (b.header.pre.kind == kind_to_u16 kv_hash_directory)
    then err (invalid_block_kind b.header.pre.kind)
    else if not (b.header.pre.format_version == kv_directory_format_version)
    then err (invalid_format_version b.header.pre.format_version)
    else if ltb kv_directory_max_inline_depth b.global_depth
    then err (spillover_unsupported b.global_depth)
    else if not (b.bucket_count == 2 ^ b.global_depth)
    then err (inconsistent_bucket_count b.bucket_count (2 ^ b.global_depth))
    else ok tt
