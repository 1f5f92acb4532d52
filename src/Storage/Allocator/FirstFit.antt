-- ===== src/Storage/Allocator/FirstFit.antt =====
-- `alloc` of `crates/storage/src/allocator.rs`: which bucket it claims, and when it gives up.
use mimisbrunnr.Base.{
  ℕ, zero, suc, ◌+◌, ◌-◌, ◌≤◌, ◌<◌, ◌≡◌, refl, sym, ◌∙◌, ap, ◌≢◌, inl, inr, true, false, some, ok,
  err, Bool-cases, from_next, arith,
}
use mimisbrunnr.Base.OrdMap.{nat_ord}
use mimisbrunnr.Base.OrdMap.Laws.{get-insert, get-insert_self}
use mimisbrunnr.Storage.Error.{StorageError, allocator_exhausted}
use mimisbrunnr.Storage.Block.{BlockRef}
use mimisbrunnr.Storage.Alloc.{
  BucketAllocEntry, BucketAllocTable, BucketDataType, data_type_to_u8, table_get, table_insert,
}
use mimisbrunnr.Storage.Allocator.{
  BucketAllocator, entry_is_free, entry_generation, next_generation, fresh_entry, with_table,
  first_block, claim, alloc_from, alloc,
}

-- No record, or a record of type `Free`.
abbrev pub IsFree : BucketAllocator → ℕ → Type 0
IsFree a b = entry_is_free (table_get a.table b) ≡ true

abbrev pub IsUsed : BucketAllocator → ℕ → Type 0
IsUsed a b = entry_is_free (table_get a.table b) ≡ false

-- A write to the table is read back at its bucket, and nowhere else.
pub table_get-insert_self :
    (t : BucketAllocTable) (b : ℕ) (e : BucketAllocEntry)
    → table_get (table_insert t b e) b ≡ some e
table_get-insert_self t b e = get-insert_self b e t

pub table_get-insert_ne :
    (t : BucketAllocTable) (b k : ℕ) (e : BucketAllocEntry)
    → k ≢ b
    → table_get (table_insert t b e) k ≡ table_get t k
unfolding nat_ord
table_get-insert_ne t b k e h = ground (arith, get-insert k b e t)

-- The bucket that a successful allocation took, out of `n` buckets from `b` on.
pub record Took (a : BucketAllocator) (dt : BucketDataType) (n b : ℕ) (a' : BucketAllocator)
    (r : BlockRef) : Type 0 where
  pub bucket : ℕ
  pub from : b ≤ bucket
  pub below : bucket < b + n
  pub was_free : IsFree a bucket
  pub skipped : (k : ℕ) → b ≤ k → k < bucket → IsUsed a k
  pub claimed : claim a dt bucket ≡ (a', r)

pub alloc_from-Took :
    (n b : ℕ) (a : BucketAllocator) (dt : BucketDataType) (a' : BucketAllocator) (r : BlockRef)
    → alloc_from n b a dt ≡ (a', ok r)
    → Took a dt n b a' r
unfolding alloc_from
alloc_from-Took zero b a dt a' r h = ground arith
alloc_from-Took (suc n) b a dt a' r h = elim (Bool-cases (entry_is_free (table_get a.table b))) [
  | inl e ↦ record {
    bucket = b;
    from = omega arith;
    below = omega arith;
    was_free = e;
    skipped = λ k p q. absurd (omega arith);
    claimed = ground arith;
  }
  | inr e ↦
      let t : Took a dt n (b + 1) a' r = alloc_from-Took n (b + 1) a dt a' r (ground arith) in
      record {
        bucket = t.bucket;
        from = omega (arith, t.from);
        below = omega (arith, t.below);
        was_free = t.was_free;
        skipped = λ k p q. from_next (IsUsed a) p e (λ p'. t.skipped k (omega arith) q);
        claimed = t.claimed;
      }
]

-- A successful allocation claims the first free bucket of the usable range.
pub alloc-Took :
    (a : BucketAllocator) (dt : BucketDataType) (a' : BucketAllocator) (r : BlockRef)
    → alloc a dt ≡ (a', ok r)
    → Took a dt (a.total_buckets - a.first_usable_bucket) a.first_usable_bucket a' r
unfolding alloc
alloc-Took a dt =
    alloc_from-Took (a.total_buckets - a.first_usable_bucket) a.first_usable_bucket a dt

-- What a claim writes.
pub table_of_claim :
    (a : BucketAllocator) (dt : BucketDataType) (b : ℕ) (a' : BucketAllocator) (r : BlockRef)
    → claim a dt b ≡ (a', r)
    → (a'.table
        ≡ table_insert a.table b (
            fresh_entry
              (next_generation (entry_generation (table_get a.table b)))
              (data_type_to_u8 dt)))
      × (r.generation ≡ next_generation (entry_generation (table_get a.table b)))
      × (r.block_no ≡ first_block a b)
      × (r.disk_id ≡ a.disk_id)
      × (a' ≡ with_table a a'.table)
unfolding claim
table_of_claim a dt b a' r h = ground arith

alloc_from_exhausted :
    (n b : ℕ) (a : BucketAllocator) (dt : BucketDataType)
    → ((k : ℕ) → b ≤ k → k < b + n → IsUsed a k)
    → alloc_from n b a dt ≡ (a, err (allocator_exhausted (data_type_to_u8 dt)))
unfolding alloc_from
alloc_from_exhausted zero b a dt used = refl
alloc_from_exhausted (suc n) b a dt used =
    rw (used b (omega arith) (omega arith), alloc_from)
      (alloc_from_exhausted n (b + 1) a dt (λ k p q. used k (omega arith) (omega arith)))

alloc_from_succeeds :
    (n b : ℕ) (a : BucketAllocator) (dt : BucketDataType) (k : ℕ)
    → b ≤ k
    → k < b + n
    → IsFree a k
    → (a' : BucketAllocator) × (r : BlockRef) × (alloc_from n b a dt ≡ (a', ok r))
unfolding alloc_from
alloc_from_succeeds zero b a dt k p q f = absurd (omega arith)
alloc_from_succeeds (suc n) b a dt k p q f =
    elim (Bool-cases (entry_is_free (table_get a.table b))) [
      | inl here ↦ ((claim a dt b).0, (claim a dt b).1, rw (here, alloc_from) refl)
      | inr used ↦
          let later : b ≢ k =
            (λ same. ground (arith, used, f, ap (λ j. entry_is_free (table_get a.table j)) same)) in
          let (a', r, h) =
            alloc_from_succeeds n (b + 1) a dt k (omega (arith, later)) (omega arith) f in
          (a', r, rw (used, alloc_from) h)
    ]

alloc_from_refused :
    (n b : ℕ) (a : BucketAllocator) (dt : BucketDataType) (a' : BucketAllocator) (e : StorageError)
    → alloc_from n b a dt ≡ (a', err e)
    → (k : ℕ) → b ≤ k
    → k < b + n
    → IsUsed a k
unfolding alloc_from
alloc_from_refused zero b a dt a' e h k p q = absurd (omega arith)
alloc_from_refused (suc n) b a dt a' e h k p q =
    elim (Bool-cases (entry_is_free (table_get a.table b))) [
      | inl f ↦ ground arith
      | inr f ↦ from_next (IsUsed a) p f (λ p'.
          alloc_from_refused n (b + 1) a dt a' e (ground arith) k (omega arith) (omega arith))
    ]

-- Where `alloc` fails, every bucket of the usable range is in use, the error is that of an exhausted
-- allocator, and nothing has changed.
pub alloc_exhausted :
    (a : BucketAllocator) (dt : BucketDataType) (a' : BucketAllocator) (e : StorageError)
    → alloc a dt ≡ (a', err e)
    → ((k : ℕ) → a.first_usable_bucket ≤ k → k < a.total_buckets → IsUsed a k)
      × (e ≡ allocator_exhausted (data_type_to_u8 dt))
      × (a' ≡ a)
unfolding alloc
alloc_exhausted a dt a' e h =
    let n = a.total_buckets - a.first_usable_bucket in
    let b = a.first_usable_bucket in
    let used = alloc_from_refused n b a dt a' e h in
    let same = sym h ∙ alloc_from_exhausted n b a dt used in
    ((λ k p q. used k p (omega arith)), ground arith, ground arith)

-- Where a bucket of the usable range is free, `alloc` succeeds.
pub alloc_succeeds :
    (a : BucketAllocator) (dt : BucketDataType) (k : ℕ)
    → a.first_usable_bucket ≤ k
    → k < a.total_buckets
    → IsFree a k
    → (a' : BucketAllocator) × (r : BlockRef) × (alloc a dt ≡ (a', ok r))
unfolding alloc
alloc_succeeds a dt k p q f =
    alloc_from_succeeds (a.total_buckets - a.first_usable_bucket) a.first_usable_bucket a dt k p
      (omega arith) f
