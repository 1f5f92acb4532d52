-- ===== src/Storage/Alloc.antt =====
-- `crates/storage/src/alloc.rs`: the bucket allocation table, a `BTreeMap` from bucket numbers to
-- 16-byte records.
use mimisbrunnr.Base.{ℕ, Option, Result, ok, err, if◌then◌else◌, ◌==◌}
use mimisbrunnr.Base.OrdMap
use mimisbrunnr.Base.OrdMap.{OrdMap, nat_ord}
use mimisbrunnr.Storage.Error.{StorageError, invalid_bucket_data_type}

pub record BucketAllocEntry : Type 0 where
  pub generation : ℕ
  pub data_type : ℕ
  pub flags : ℕ
  pub dirty_sectors : ℕ
  pub last_modify_lsn : ℕ

pub data BucketDataType : Type 0 where
  free wal index metadata blob btree_node stripe need_discard reserved : BucketDataType

-- `data_type as u8`
unfoldable pub data_type_to_u8 : BucketDataType → ℕ
data_type_to_u8 free = 0
data_type_to_u8 wal = 1
data_type_to_u8 index = 2
data_type_to_u8 metadata = 3
data_type_to_u8 blob = 4
data_type_to_u8 btree_node = 5
data_type_to_u8 stripe = 6
data_type_to_u8 need_discard = 7
data_type_to_u8 reserved = 8

unfoldable pub data_type_from_u8 : ℕ → Result StorageError BucketDataType
data_type_from_u8 v =
    if v == 0
    then ok free
    else if v == 1
    then ok wal
    else if v == 2
    then ok index
    else if v == 3
    then ok metadata
    else if v == 4
    then ok blob
    else if v == 5
    then ok btree_node
    else if v == 6
    then ok stripe
    else if v == 7
    then ok need_discard
    else if v == 8
    then ok reserved
    else err (invalid_bucket_data_type v)

-- `BucketAllocTable`, by its only field.
abbrev pub BucketAllocTable : Type 0
BucketAllocTable = OrdMap ℕ BucketAllocEntry

-- `BucketAllocTable::get` and `BucketAllocTable::insert`
abbrev pub table_get : BucketAllocTable → ℕ → Option BucketAllocEntry
table_get t bucket_no = OrdMap.get bucket_no t

abbrev pub table_insert : BucketAllocTable → ℕ → BucketAllocEntry → BucketAllocTable
table_insert t bucket_no e = OrdMap.insert bucket_no e t
