-- ===== src/Storage/Allocator/Release.antt =====
-- `free` of `crates/storage/src/allocator.rs`, and what becomes of a reference to a bucket that is
-- freed and allocated again.
use mimisbrunnr.Base.{
  if◌then◌else◌, ◌==◌, ℕ, ◌+◌, ◌-◌, ◌<◌, ◌≡◌, sym, ◌∙◌, ap, subst, ◌↔◌, some, ok, err, arith,
}
use mimisbrunnr.Storage.Error.{StorageError, stale_block_ref}
use mimisbrunnr.Storage.Block.{BlockRef, block_no_to_bucket}
use mimisbrunnr.Storage.Alloc.{
  BucketAllocEntry, BucketDataType, data_type_to_u8, table_get, table_insert,
}
use mimisbrunnr.Storage.Allocator.{
  BucketAllocator, entry_generation, next_generation, fresh_entry, with_table, alloc, free,
  validate, validate_entry, u32_mod,
}
use mimisbrunnr.Storage.Allocator.FirstFit.{table_get-insert_self, table_get-insert_ne}
use mimisbrunnr.Storage.Allocator.Contract.{
  Fits, Allocated, alloc-Allocated, bucket_of, bucket_of_first_block,
}

-- `free` accepts exactly the references that `validate` accepts.
free-ok_iff-validate :
    (a : BucketAllocator) (r : BlockRef) → ((free a r).1 ≡ ok tt) ↔ (validate a r ≡ ok tt)
unfolding free validate
free-ok_iff-validate a r = ground arith

free_write :
    (a : BucketAllocator) (r : BlockRef) (a' : BucketAllocator)
    → free a r ≡ (a', ok tt)
    → (a' ≡ with_table a (table_insert a.table (bucket_of a r) (fresh_entry r.generation 0)))
      × (r.disk_id ≡ a.disk_id)
unfolding free
free_write a r a' h = ground arith

-- A successful `free` marks the bucket free under its old generation, and changes no other bucket
-- and nothing of the geometry.
free_effect :
    (a : BucketAllocator) (r : BlockRef) (a' : BucketAllocator) (k : ℕ)
    → free a r ≡ (a', ok tt)
    → (table_get a'.table k
        ≡ (if k == bucket_of a r then some (fresh_entry r.generation 0) else table_get a.table k))
      × (a' ≡ with_table a a'.table)
free_effect a r a' k h =
    let (w, _) = free_write a r a' h in
    (
      ground (
        arith,
        w,
        table_get-insert_self a.table (bucket_of a r) (fresh_entry r.generation 0),
        table_get-insert_ne a.table (bucket_of a r) k (fresh_entry r.generation 0),
      ),
      cc w,
    )

freed_entry :
    (a : BucketAllocator) (r : BlockRef) (a' : BucketAllocator)
    → free a r ≡ (a', ok tt)
    → table_get a'.table (bucket_of a r) ≡ some (fresh_entry r.generation 0)
freed_entry a r a' h = ground (arith, (free_effect a r a' (bucket_of a r) h).0)

-- A refused `free` changes nothing.
pub free_refused :
    (a : BucketAllocator) (r : BlockRef) (a' : BucketAllocator) (e : StorageError)
    → free a r ≡ (a', err e)
    → a' ≡ a
unfolding free
free_refused a r a' e h = ground arith

-- The state after `free` and a second `alloc` of the same bucket.
validate_of_entry :
    (a2 : BucketAllocator) (r : BlockRef) (e : BucketAllocEntry)
    → r.disk_id ≡ a2.disk_id
    → table_get a2.table (bucket_of a2 r) ≡ some e
    → validate a2 r ≡ validate_entry r (some e)
unfolding validate
validate_of_entry a2 r e disk h = ground arith

reused :
    (a : BucketAllocator) (r : BlockRef) (a1 a2 : BucketAllocator) (dt : BucketDataType)
    (r' : BlockRef)
    → Fits a
    → free a r ≡ (a1, ok tt)
    → alloc a1 dt ≡ (a2, ok r')
    → bucket_of a r' ≡ bucket_of a r
    → validate a2 r
      ≡ validate_entry r (some (fresh_entry (next_generation r.generation) (data_type_to_u8 dt)))
reused a r a1 a2 dt r' f h1 h2 same =
    let freed = freed_entry a r a1 h1 in
    let geo = (free_effect a r a1 0 h1).1 in
    let t : Allocated a1 dt a2 r' = alloc-Allocated a1 dt a2 r' h2 in
    let size : a1.bucket_size_log2 ≡ a.bucket_size_log2 = ap (λ c. c.bucket_size_log2) geo in
    let size2 : a2.bucket_size_log2 ≡ a.bucket_size_log2 =
      ap (λ c. c.bucket_size_log2) t.geometry ∙ size in
    let disk : r.disk_id ≡ a2.disk_id =
      (free_write a r a1 h1).1
      ∙ sym (ap (λ c. c.disk_id) geo)
      ∙ sym (ap (λ c. c.disk_id) t.geometry) in
    let fits : Fits a1 = subst Fits (sym geo) f in
    let at : t.bucket ≡ bucket_of a r =
      sym (bucket_of_first_block a1 t.bucket fits t.below)
      ∙ ap (λ n. (block_no_to_bucket n a1.bucket_size_log2).0) (sym t.block)
      ∙ ap (λ z. (block_no_to_bucket r'.block_no z).0) size
      ∙ same in
    let gen : r'.generation ≡ next_generation r.generation =
      t.generation
      ∙ ap (λ b. next_generation (entry_generation (table_get a1.table b))) at
      ∙ ap (λ e. next_generation (entry_generation e)) freed in
    let here : table_get a2.table (bucket_of a2 r)
        ≡ some (fresh_entry r'.generation (data_type_to_u8 dt)) =
      ap (λ z. table_get a2.table (block_no_to_bucket r.block_no z).0) size2
      ∙ ap (λ b. table_get a2.table b) (sym at)
      ∙ t.entry in
    validate_of_entry a2 r _ disk here
    ∙ ap (λ g. validate_entry r (some (fresh_entry g (data_type_to_u8 dt)))) gen

-- A bucket that is freed and allocated again no longer answers to the old reference, as long as its
-- generation is below the largest `u32`.
pub realloc-stale :
    (a : BucketAllocator) (r : BlockRef) (a1 a2 : BucketAllocator) (dt : BucketDataType)
    (r' : BlockRef)
    → Fits a
    → free a r ≡ (a1, ok tt)
    → alloc a1 dt ≡ (a2, ok r')
    → bucket_of a r' ≡ bucket_of a r
    → r.generation + 1 < u32_mod
    → validate a2 r ≡ err (stale_block_ref r.generation (r.generation + 1))
unfolding validate_entry
realloc-stale a r a1 a2 dt r' f h1 h2 same room = reused a r a1 a2 dt r' f h1 h2 same ∙ ground arith

-- At the largest `u32` generation the counter saturates, and the old reference is accepted for the
-- new contents of the bucket.
realloc_saturated :
    (a : BucketAllocator) (r : BlockRef) (a1 a2 : BucketAllocator) (dt : BucketDataType)
    (r' : BlockRef)
    → Fits a
    → free a r ≡ (a1, ok tt)
    → alloc a1 dt ≡ (a2, ok r')
    → bucket_of a r' ≡ bucket_of a r
    → r.generation ≡ u32_mod - 1
    → validate a2 r ≡ ok tt
unfolding validate_entry
realloc_saturated a r a1 a2 dt r' f h1 h2 same top =
    reused a r a1 a2 dt r' f h1 h2 same ∙ ground arith

-- A reference to a bucket that was freed and not allocated again is still accepted, by `validate` and by
-- a second `free`.
validate-free :
    (a : BucketAllocator) (r : BlockRef) (a' : BucketAllocator)
    → free a r ≡ (a', ok tt)
    → (validate a' r ≡ ok tt) × ((free a' r).1 ≡ ok tt)
unfolding validate_entry
validate-free a r a' h =
    let freed = freed_entry a r a' h in
    let geo = (free_effect a r a' 0 h).1 in
    let size : a'.bucket_size_log2 ≡ a.bucket_size_log2 = ap (λ c. c.bucket_size_log2) geo in
    let disk : r.disk_id ≡ a'.disk_id = (free_write a r a' h).1 ∙ sym (ap (λ c. c.disk_id) geo) in
    let here : table_get a'.table (bucket_of a' r) ≡ some (fresh_entry r.generation 0) =
      ap (λ z. table_get a'.table (block_no_to_bucket r.block_no z).0) size ∙ freed in
    let valid : validate a' r ≡ ok tt = validate_of_entry a' r _ disk here ∙ ground arith in
    (valid, (free-ok_iff-validate a' r).1 valid)
