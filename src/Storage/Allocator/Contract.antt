-- ===== src/Storage/Allocator/Contract.antt =====
-- `alloc` and `validate` of `crates/storage/src/allocator.rs` together: the references that `alloc`
-- hands out.
use native.Mathlib.Nat.{mul-div_cancel, mod-eq_of_lt, one-le-pow}
use mimisbrunnr.Base.{
  ℕ, ◌-◌, ◌*◌, ◌/◌, ◌%◌, ◌^◌, ◌≤◌, ◌<◌, ◌≡◌, sym, ◌∙◌, ap, ◌≢◌, some, ok, arith, leb, ltb, ◌&&◌,
  ◌==◌, if◌then◌else◌, false,
}
use mimisbrunnr.Storage.Block.{BlockRef, block_size_log2, block_no_to_bucket}
use mimisbrunnr.Storage.Alloc.{BucketDataType, data_type_to_u8, table_get}
use mimisbrunnr.Storage.Allocator.{
  BucketAllocator, entry_is_free, entry_generation, next_generation, fresh_entry, with_table,
  first_block, alloc, validate, u32_mod,
}
use mimisbrunnr.Storage.Allocator.FirstFit.{
  IsFree, IsUsed, Took, alloc-Took, table_of_claim, table_get-insert_self, table_get-insert_ne,
}

-- Every block number of the disk fits in `u32`.
abbrev pub Fits : BucketAllocator → Type 0
Fits a = a.total_buckets * 2 ^ (a.bucket_size_log2 - block_size_log2) ≤ u32_mod

-- A shift to the left inside the word is undone by the shift to the right.
shift_back : (b t p m : ℕ) → t * p ≤ m → b < t → 0 < p → (b * p) % m / p ≡ b
shift_back b t p m fits h pos = rw (mod-eq_of_lt inside) (mul-div_cancel b pos)
  where
    inside : b * p < m
    inside = grind arith

pub bucket_of_first_block :
    (a : BucketAllocator) (b : ℕ)
    → Fits a
    → b < a.total_buckets
    → (block_no_to_bucket (first_block a b) a.bucket_size_log2).0 ≡ b
unfolding block_no_to_bucket
bucket_of_first_block a b f h =
    shift_back b a.total_buckets (2 ^ (a.bucket_size_log2 - block_size_log2)) u32_mod f h
      (one-le-pow (a.bucket_size_log2 - block_size_log2) 2 (omega arith))

-- What an allocation leaves behind, seen from the bucket that it took.
pub record Allocated (a : BucketAllocator) (dt : BucketDataType) (a' : BucketAllocator)
    (r : BlockRef) : Type 0 where
  pub bucket : ℕ
  pub from : a.first_usable_bucket ≤ bucket
  pub below : bucket < a.total_buckets
  pub was_free : IsFree a bucket
  pub skipped : (k : ℕ) → a.first_usable_bucket ≤ k → k < bucket → IsUsed a k
  pub entry : table_get a'.table bucket ≡ some (fresh_entry r.generation (data_type_to_u8 dt))
  pub generation : r.generation ≡ next_generation (entry_generation (table_get a.table bucket))
  pub block : r.block_no ≡ first_block a bucket
  pub disk : r.disk_id ≡ a.disk_id
  pub others : (k : ℕ) → k ≢ bucket → table_get a'.table k ≡ table_get a.table k
  pub geometry : a' ≡ with_table a a'.table

pub alloc-Allocated :
    (a : BucketAllocator) (dt : BucketDataType) (a' : BucketAllocator) (r : BlockRef)
    → alloc a dt ≡ (a', ok r)
    → Allocated a dt a' r
alloc-Allocated a dt a' r h =
    let t : Took a dt (a.total_buckets - a.first_usable_bucket) a.first_usable_bucket a' r =
      alloc-Took a dt a' r h in
    let (written, gen, block, disk, geometry) = table_of_claim a dt t.bucket a' r t.claimed in
    record {
      bucket = t.bucket;
      from = t.from;
      below = omega (arith, t.below, t.from);
      was_free = t.was_free;
      skipped = t.skipped;
      entry = rw (written, gen) (table_get-insert_self a.table t.bucket _);
      generation = gen;
      block = block;
      disk = disk;
      others = λ k ne. rw written (table_get-insert_ne a.table t.bucket k _ ne);
      geometry = geometry;
    }

-- A reference that `alloc` has just handed out is accepted by `validate`.
pub validate-alloc :
    (a : BucketAllocator) (dt : BucketDataType) (a' : BucketAllocator) (r : BlockRef)
    → Fits a
    → alloc a dt ≡ (a', ok r)
    → validate a' r ≡ ok tt
unfolding validate
validate-alloc a dt a' r f h =
    let t : Allocated a dt a' r = alloc-Allocated a dt a' r h in
    ground (arith, t.entry, t.block, t.disk, t.geometry, bucket_of_first_block a t.bucket f t.below)

-- The bucket that a reference points into.
abbrev pub bucket_of : BucketAllocator → BlockRef → ℕ
bucket_of a r = (block_no_to_bucket r.block_no a.bucket_size_log2).0

-- A successful `alloc` takes the first free bucket of the usable range and raises its generation; every
-- bucket of the range before it is in use, no other bucket changes, and nothing of the geometry.
pub alloc_first_fit :
    (a : BucketAllocator) (dt : BucketDataType) (a' : BucketAllocator) (r : BlockRef) (k : ℕ)
    → Fits a
    → alloc a dt ≡ (a', ok r)
    → (a.first_usable_bucket ≤ bucket_of a r)
      × (bucket_of a r < a.total_buckets)
      × IsFree a (bucket_of a r)
      × (r.generation ≡ next_generation (entry_generation (table_get a.table (bucket_of a r))))
      × ((leb a.first_usable_bucket k && ltb k (bucket_of a r))
            && entry_is_free (table_get a.table k)
          ≡ false)
      × (table_get a'.table k ≡ (
          if k == bucket_of a r
          then some (fresh_entry r.generation (data_type_to_u8 dt))
          else table_get a.table k))
      × (a' ≡ with_table a a'.table)
alloc_first_fit a dt a' r k f h =
    let t : Allocated a dt a' r = alloc-Allocated a dt a' r h in
    let at : bucket_of a r ≡ t.bucket =
      ap (λ n. (block_no_to_bucket n a.bucket_size_log2).0) t.block
      ∙ bucket_of_first_block a t.bucket f t.below in
    rw at (
      t.from,
      t.below,
      t.was_free,
      t.generation,
      ground (arith, t.skipped k),
      ground (arith, t.entry, t.others k),
      t.geometry,
    )

-- An allocation leaves every reference into a bucket in use as it was, and hands out another block.
pub alloc_keeps_live :
    (a : BucketAllocator) (dt : BucketDataType) (a' : BucketAllocator) (r live : BlockRef)
    → Fits a
    → alloc a dt ≡ (a', ok r)
    → IsUsed a (bucket_of a live)
    → (validate a' live ≡ validate a live) × (r.block_no ≢ live.block_no)
unfolding validate
alloc_keeps_live a dt a' r live f h used =
    let t : Allocated a dt a' r = alloc-Allocated a dt a' r h in
    let apart : bucket_of a live ≢ t.bucket =
      (λ e. ground (arith, t.was_free, ap (λ b. entry_is_free (table_get a.table b)) e)) in
    (
      ground (arith, t.geometry, t.others (bucket_of a live) apart),
      (λ e. apart (
          ap (λ n. (block_no_to_bucket n a.bucket_size_log2).0) (sym e ∙ t.block)
          ∙ bucket_of_first_block a t.bucket f t.below)),
    )
