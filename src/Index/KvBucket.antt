-- ===== src/Index/KvBucket.antt =====
-- `crates/index/src/kv_bucket.rs`: a hash bucket of up to 144 entries in one block. Its checksum and its
-- device image are not modelled here.
pub mod Laws
mod Tests
use mimisbrunnr.Base.{
  ℕ, zero, suc, ◌+◌, ◌-◌, ◌%◌, ◌^◌, min, List, [], ◌∷◌, take, set, replicate, Option, none, some,
  Bool, ◌&&◌, Result, ok, err, if◌then◌else◌, ltb, leb, ◌==◌, not, bytes_eq,
}
use mimisbrunnr.Storage.Block.{
  BlockHeader, BlockRef, null_ref, block_size, block_preamble_magic_block, new_header, kind_to_u16,
  kv_hash_bucket,
}

abbrev pub kv_bucket_max_entries : ℕ
kv_bucket_max_entries = 144

abbrev pub kv_bucket_format_version : ℕ
kv_bucket_format_version = 1

pub record KvBucketEntry : Type 0 where
  pub tag_id : ℕ
  pub value_hash : ℕ
  pub bitmap_ref : BlockRef

-- `KvBucketEntry::default()`
abbrev pub default_entry : KvBucketEntry
default_entry = record { tag_id = 0; value_hash = 0; bitmap_ref = null_ref }

-- The array of 144 entries is a list, and `_pad` and `_pad_tail` are always zero.
pub record KvBucketBlock : Type 0 where
  pub header : BlockHeader
  pub local_depth : ℕ
  pub entry_count : ℕ
  pub entries : List KvBucketEntry
  pub crc : ℕ

pub data KvBucketError : Type 0 where
  crc_mismatch : (expected actual : ℕ) → KvBucketError
  invalid_magic : (actual : List ℕ) → KvBucketError
  invalid_block_kind invalid_format_version over_capacity : ℕ → KvBucketError
  bucket_full : KvBucketError

unfoldable pub new : ℕ → KvBucketBlock
new local_depth = record {
  header = new_header kv_hash_bucket kv_bucket_format_version (block_size - 32 - 4);
  local_depth = local_depth;
  entry_count = 0;
  entries = replicate kv_bucket_max_entries default_entry;
  crc = 0;
}

unfoldable pub is_key : ℕ → ℕ → KvBucketEntry → Bool
is_key tag_id value_hash entry = entry.tag_id == tag_id && entry.value_hash == value_hash

-- The loop of `lookup` over the occupied entries.
unfoldable pub find : ℕ → ℕ → List KvBucketEntry → Option BlockRef
find tag_id value_hash [] = none
find tag_id value_hash (entry ∷ entries) =
    if is_key tag_id value_hash entry then some entry.bitmap_ref else find tag_id value_hash entries

unfoldable pub lookup : KvBucketBlock → ℕ → ℕ → Option BlockRef
unfolding find
lookup b tag_id value_hash =
    find tag_id value_hash (take (min b.entry_count kv_bucket_max_entries) b.entries)

-- The loop of `upsert` over the first `count` entries: the entries with the first match overwritten.
unfoldable pub overwrite : ℕ → ℕ → ℕ → BlockRef → List KvBucketEntry → Option (List KvBucketEntry)
overwrite zero tag_id value_hash bitmap_ref entries = none
overwrite (suc count) tag_id value_hash bitmap_ref [] = none
overwrite (suc count) tag_id value_hash bitmap_ref (entry ∷ entries) =
    if is_key tag_id value_hash entry
    then some (record entry { bitmap_ref = bitmap_ref } ∷ entries)
    else elim (overwrite count tag_id value_hash bitmap_ref entries) [
      | none ↦ none
      | some rest ↦ some (entry ∷ rest)
    ]

-- `self.entries[count] = …; self.entry_count += 1`
unfoldable pub push : KvBucketBlock → ℕ → ℕ → BlockRef → KvBucketBlock
push b tag_id value_hash bitmap_ref = record b {
  entries =
      set b.entries b.entry_count
        (record { tag_id = tag_id; value_hash = value_hash; bitmap_ref = bitmap_ref });
  entry_count = b.entry_count + 1;
}

-- The block after the call, beside its result.
unfoldable pub upsert :
    KvBucketBlock → ℕ → ℕ → BlockRef → KvBucketBlock × Result KvBucketError (Unit {0})
unfolding overwrite push
upsert b tag_id value_hash bitmap_ref =
    elim (overwrite (min b.entry_count kv_bucket_max_entries) tag_id value_hash bitmap_ref
      b.entries) [
        | some entries ↦ (record b { entries = entries }, ok tt)
        | none ↦
            if leb kv_bucket_max_entries b.entry_count
            then (b, err bucket_full)
            else (push b tag_id value_hash bitmap_ref, ok tt)
      ]

unfoldable pub len : KvBucketBlock → ℕ
len b = min b.entry_count kv_bucket_max_entries

unfoldable pub is_empty : KvBucketBlock → Bool
is_empty b = b.entry_count == 0

unfoldable pub is_full : KvBucketBlock → Bool
is_full b = leb kv_bucket_max_entries b.entry_count

-- What `iter` goes over.
unfoldable pub iter : KvBucketBlock → List KvBucketEntry
unfolding len
iter b = take (len b) b.entries

unfoldable pub validate : KvBucketBlock → Result KvBucketError (Unit {0})
unfolding kind_to_u16
validate b =
    if not (bytes_eq b.header.pre.magic block_preamble_magic_block)
    then err (invalid_magic b.header.pre.magic)
    else if not (b.header.pre.kind == kind_to_u16 kv_hash_bucket)
    then err (invalid_block_kind b.header.pre.kind)
    else if not (b.header.pre.format_version == kv_bucket_format_version)
    then err (invalid_format_version b.header.pre.format_version)
    else if ltb kv_bucket_max_entries b.entry_count
    then err (over_capacity b.entry_count)
    else ok tt
