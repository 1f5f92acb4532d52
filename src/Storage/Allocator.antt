-- ===== src/Storage/Allocator.antt =====
-- `crates/storage/src/allocator.rs`: the bucket allocator, which borrows the table. A method that
-- changes the table returns the new allocator beside its result; log lines are left out.
pub mod FirstFit
pub mod Contract
pub mod Release
pub mod Seed
mod Tests
use mimisbrunnr.Base.{
  ℕ, zero, suc, ◌+◌, ◌-◌, ◌*◌, ◌%◌, ◌^◌, min, Bool, true, false, Option, none, some, Result, ok,
  err, if◌then◌else◌, ◌==◌,
}
use mimisbrunnr.Storage.Error.{
  StorageError, allocator_exhausted, stale_block_ref, cross_disk_block_ref,
  free_of_unallocated_bucket,
}
use mimisbrunnr.Storage.Block.{BlockRef, block_size_log2, block_no_to_bucket}
use mimisbrunnr.Storage.Alloc.{
  BucketAllocEntry, BucketAllocTable, BucketDataType, data_type_to_u8, table_get, table_insert,
}

pub record BucketAllocator : Type 0 where
  pub table : BucketAllocTable
  pub bucket_size_log2 : ℕ
  pub first_usable_bucket : ℕ
  pub total_buckets : ℕ
  pub disk_id : ℕ

abbrev pub u32_mod : ℕ
u32_mod = 2 ^ 32

-- `u32::saturating_add(1)`
abbrev pub next_generation : ℕ → ℕ
next_generation g = min (g + 1) (u32_mod - 1)

-- `match entry { None => true, Some(e) => e.data_type == Free }`
abbrev pub entry_is_free : Option BucketAllocEntry → Bool
entry_is_free none = true
entry_is_free (some e) = e.data_type == 0

-- `entry.map(|e| e.generation).unwrap_or(0)`
abbrev pub entry_generation : Option BucketAllocEntry → ℕ
entry_generation none = 0
entry_generation (some e) = e.generation

-- The record that `alloc`, `free` and `seed_freelist` write.
abbrev pub fresh_entry : ℕ → ℕ → BucketAllocEntry
fresh_entry g dt = record {
  generation = g;
  data_type = dt;
  flags = 0;
  dirty_sectors = 0;
  last_modify_lsn = 0;
}

abbrev pub with_table : BucketAllocator → BucketAllocTable → BucketAllocator
with_table a t = record a { table = t }

-- `bucket_no << (bucket_size_log2 - 12)` in `u32`.
abbrev pub first_block : BucketAllocator → ℕ → ℕ
first_block a bucket_no = (bucket_no * 2 ^ (a.bucket_size_log2 - block_size_log2)) % u32_mod

-- The body of the loop of `alloc` at a free bucket.
unfoldable pub claim : BucketAllocator → BucketDataType → ℕ → BucketAllocator × BlockRef
claim a dt b =
    let g = next_generation (entry_generation (table_get a.table b)) in
    (
      with_table a (table_insert a.table b (fresh_entry g (data_type_to_u8 dt))),
      record { disk_id = a.disk_id; pad = 0; block_no = first_block a b; generation = g },
    )

-- The loop of `alloc`, with `n` buckets left from bucket `b` on.
unfoldable pub alloc_from :
    ℕ → ℕ → BucketAllocator → BucketDataType → BucketAllocator × Result StorageError BlockRef
alloc_from zero b a dt = (a, err (allocator_exhausted (data_type_to_u8 dt)))
alloc_from (suc n) b a dt = elim (entry_is_free (table_get a.table b)) [
  | true ↦ let (a', r) = claim a dt b in (a', ok r)
  | false ↦ alloc_from n (b + 1) a dt
]

unfoldable pub alloc :
    BucketAllocator → BucketDataType → BucketAllocator × Result StorageError BlockRef
alloc a dt = alloc_from (a.total_buckets - a.first_usable_bucket) a.first_usable_bucket a dt

-- `free` once the entry is found.
unfoldable pub free_entry :
    BucketAllocator
    → BlockRef
    → ℕ
    → Option BucketAllocEntry
    → BucketAllocator × Result StorageError (Unit {0})
free_entry a r b none = (a, err (free_of_unallocated_bucket b))
free_entry a r b (some e) =
    if r.generation == e.generation
    then (with_table a (table_insert a.table b (fresh_entry e.generation 0)), ok tt)
    else (a, err (stale_block_ref r.generation e.generation))

unfoldable pub free : BucketAllocator → BlockRef → BucketAllocator × Result StorageError (Unit {0})
unfolding free_entry
free a r =
    let b = (block_no_to_bucket r.block_no a.bucket_size_log2).0 in
    if r.disk_id == a.disk_id
    then free_entry a r b (table_get a.table b)
    else (a, err (cross_disk_block_ref a.disk_id r.disk_id))

unfoldable pub validate_entry : BlockRef → Option BucketAllocEntry → Result StorageError (Unit {0})
validate_entry r none = err (stale_block_ref r.generation 0)
validate_entry r (some e) =
    if r.generation == e.generation then ok tt else err (stale_block_ref r.generation e.generation)

unfoldable pub validate : BucketAllocator → BlockRef → Result StorageError (Unit {0})
unfolding validate_entry
validate a r =
    let b = (block_no_to_bucket r.block_no a.bucket_size_log2).0 in
    if r.disk_id == a.disk_id
    then validate_entry r (table_get a.table b)
    else err (cross_disk_block_ref a.disk_id r.disk_id)

-- The loop of `seed_freelist`, with `n` buckets left from bucket `b` on.
unfoldable pub seed_from : ℕ → ℕ → BucketAllocTable → BucketAllocTable
seed_from zero b t = t
seed_from (suc n) b t =
    seed_from n (b + 1)
      (elim (table_get t b) [ none ↦ table_insert t b (fresh_entry 1 0) | some _ ↦ t ])

unfoldable pub seed_freelist : BucketAllocator → BucketAllocator
unfolding seed_from
seed_freelist a =
    with_table a (seed_from (a.total_buckets - a.first_usable_bucket) a.first_usable_bucket a.table)
