-- ===== src/Storage/Allocator/Tests.antt =====
-- The allocator of `crates/storage/src/allocator.rs` on a disk of 16 buckets of 1 MiB.
use mimisbrunnr.Base.{
  ℕ, ◌≤◌, ◌<◌, ◌≡◌, refl, [], ◌∷◌, some, ◌≢◌, ◌↔◌, ok, err, arith, false, leb, ltb, ◌&&◌, ◌==◌,
  if◌then◌else◌,
}
use mimisbrunnr.Base.OrdMap
use mimisbrunnr.Base.OrdMap.{nat_ord}
use mimisbrunnr.Storage.Error.{stale_block_ref, allocator_exhausted}
use mimisbrunnr.Storage.Block.{BlockRef, block_no_to_bucket}
use mimisbrunnr.Storage.Alloc.{
  BucketDataType, blob, index, data_type_to_u8, table_get, table_insert,
}
use mimisbrunnr.Storage.Alloc
use mimisbrunnr.Storage.Allocator.{
  BucketAllocator, fresh_entry, alloc_from, alloc, claim, free, free_entry, validate, with_table,
  entry_is_free, next_generation, entry_generation,
}
use mimisbrunnr.Storage.Allocator.FirstFit.{IsFree, IsUsed, alloc_exhausted, alloc_succeeds}
use mimisbrunnr.Storage.Allocator.Contract.{
  Fits, bucket_of, alloc_first_fit, validate-alloc, alloc_keeps_live,
}
use mimisbrunnr.Storage.Allocator.Release.{realloc-stale}
use mimisbrunnr.Storage.Allocator.Seed.{data_type_from_u8-ok_iff}

-- A disk with this table, whose usable buckets go from 4 up.
abbrev disk : ℕ → ℕ → BucketAllocator
disk generation total = record {
  table = (4, fresh_entry generation 4) ∷ [];
  bucket_size_log2 = 20;
  first_usable_bucket = 4;
  total_buckets = total;
  disk_id = 7;
}

-- The reference into bucket 4 at that generation.
abbrev held : ℕ → BlockRef
held generation = record { disk_id = 7; pad = 0; block_no = 1024; generation = generation }

-- The disk behind an allocation in bucket 5, and behind the release of bucket 4.
abbrev after_alloc : BucketAllocator
after_alloc = with_table (disk 3 16) ((4, fresh_entry 3 4) ∷ (5, fresh_entry 1 4) ∷ [])

abbrev after_free : ℕ → BucketAllocator
after_free generation = with_table (disk generation 16) ((4, fresh_entry generation 0) ∷ [])

abbrev given : BlockRef
given = record { disk_id = 7; pad = 0; block_no = 1280; generation = 1 }

fits : Fits (disk 3 16)
fits = omega arith

alloc_run : alloc (disk 3 16) blob ≡ (after_alloc, ok given)
unfolding alloc alloc_from claim OrdMap.get OrdMap.insert nat_ord data_type_to_u8
alloc_run = refl

alloc_first_fit_example :
    (4 ≤ bucket_of (disk 3 16) given)
    × (bucket_of (disk 3 16) given < 16)
    × IsFree (disk 3 16) (bucket_of (disk 3 16) given)
    × (1
        ≡ next_generation
            (entry_generation (table_get (disk 3 16).table (bucket_of (disk 3 16) given))))
    × ((leb 4 4 && ltb 4 (bucket_of (disk 3 16) given))
          && entry_is_free (table_get (disk 3 16).table 4)
        ≡ false)
    × (table_get after_alloc.table 4 ≡ (
        if 4 == bucket_of (disk 3 16) given
        then some (fresh_entry 1 (data_type_to_u8 blob))
        else table_get (disk 3 16).table 4))
    × (after_alloc ≡ with_table (disk 3 16) after_alloc.table)
alloc_first_fit_example = alloc_first_fit (disk 3 16) blob after_alloc given 4 fits alloc_run

validate-alloc_example : validate after_alloc given ≡ ok tt
validate-alloc_example = validate-alloc (disk 3 16) blob after_alloc given fits alloc_run

held-IsUsed : IsUsed (disk 3 16) (bucket_of (disk 3 16) (held 3))
unfolding block_no_to_bucket OrdMap.get nat_ord
held-IsUsed = refl

alloc_keeps_live_example :
    (validate after_alloc (held 3) ≡ validate (disk 3 16) (held 3))
    × (given.block_no ≢ (held 3).block_no)
alloc_keeps_live_example =
    alloc_keeps_live (disk 3 16) blob after_alloc given (held 3) fits alloc_run held-IsUsed

-- A disk whose one usable bucket is in use.
exhausted_run : alloc (disk 3 5) index ≡ (disk 3 5, err (allocator_exhausted 2))
unfolding alloc alloc_from OrdMap.get nat_ord data_type_to_u8
exhausted_run = refl

alloc_exhausted_example :
    ((k : ℕ) → 4 ≤ k → k < 5 → IsUsed (disk 3 5) k)
    × (allocator_exhausted 2 ≡ allocator_exhausted (data_type_to_u8 index))
    × (disk 3 5 ≡ disk 3 5)
alloc_exhausted_example =
    alloc_exhausted (disk 3 5) index (disk 3 5) (allocator_exhausted 2) exhausted_run

five-IsFree : IsFree (disk 3 16) 5
unfolding OrdMap.get nat_ord
five-IsFree = refl

alloc_succeeds_example :
    (a' : BucketAllocator) × (r : BlockRef) × (alloc (disk 3 16) blob ≡ (a', ok r))
alloc_succeeds_example = alloc_succeeds (disk 3 16) blob 5 (omega arith) (omega arith) five-IsFree

free_run :
    (generation : ℕ) → free (disk generation 16) (held generation) ≡ (after_free generation, ok tt)
unfolding free free_entry OrdMap.get OrdMap.insert nat_ord block_no_to_bucket
free_run generation = ground arith

-- A reference of an older generation is refused.
stale_run : free (disk 3 16) (held 2) ≡ (disk 3 16, err (stale_block_ref 2 3))
unfolding free free_entry OrdMap.get nat_ord block_no_to_bucket
stale_run = refl

-- Bucket 4 allocated again at the next generation.
abbrev after_reuse : ℕ → ℕ → BucketAllocator
after_reuse generation next = with_table (disk generation 16) ((4, fresh_entry next 4) ∷ [])

reuse_run : alloc (after_free 3) blob ≡ (after_reuse 3 4, ok (held 4))
unfolding alloc alloc_from claim OrdMap.get OrdMap.insert nat_ord data_type_to_u8
reuse_run = refl

reuse_bucket : (g h : ℕ) → bucket_of (disk g 16) (held h) ≡ bucket_of (disk g 16) (held g)
reuse_bucket g h = refl

realloc-stale_example : validate (after_reuse 3 4) (held 3) ≡ err (stale_block_ref 3 4)
realloc-stale_example =
    realloc-stale (disk 3 16) (held 3) (after_free 3) (after_reuse 3 4) blob (held 4) fits
      (free_run 3) reuse_run (reuse_bucket 3 4) (omega arith)

abbrev top : ℕ
top = 4294967295

top_run : alloc (after_free top) blob ≡ (after_reuse top top, ok (held top))
unfolding alloc alloc_from claim OrdMap.get OrdMap.insert nat_ord data_type_to_u8
top_run = refl

data_type_from_u8-ok_iff_example :
    (Alloc.data_type_from_u8 4 ≡ ok blob) ↔ (4 ≡ data_type_to_u8 blob)
data_type_from_u8-ok_iff_example = data_type_from_u8-ok_iff 4 blob
