-- ===== src/Storage/Allocator/Seed.antt =====
-- `seed_freelist` of `crates/storage/src/allocator.rs`, and the numbers of the bucket types.
use mimisbrunnr.Base.{
  ℕ, zero, suc, ◌+◌, ◌-◌, ◌≤◌, ◌<◌, ◌≡◌, refl, ◌∙◌, ◌≢◌, ◌⊎◌, inl, Option, none, some, ok,
  from_next, ap, leb, ltb, ◌&&◌, if◌then◌else◌, arith, ◌↔◌,
}
use mimisbrunnr.Storage.Alloc.{
  BucketAllocEntry, BucketAllocTable, BucketDataType, data_type_to_u8, data_type_from_u8, table_get,
  table_insert,
}
use mimisbrunnr.Storage.Allocator.{BucketAllocator, fresh_entry, seed_from, seed_freelist}
use mimisbrunnr.Storage.Allocator.FirstFit.{table_get-insert_self, table_get-insert_ne}

-- The record of bucket `k` after seeding: a fresh one only where there was none.
abbrev pub or_fresh : Option BucketAllocEntry → Option BucketAllocEntry
or_fresh none = some (fresh_entry 1 0)
or_fresh (some e) = some e

abbrev seed_step : BucketAllocTable → ℕ → BucketAllocTable
seed_step t b = elim (table_get t b) [ none ↦ table_insert t b (fresh_entry 1 0) | some _ ↦ t ]

seed_step_self :
    (t : BucketAllocTable) (b : ℕ) → table_get (seed_step t b) b ≡ or_fresh (table_get t b)
seed_step_self t b = ground (arith, table_get-insert_self t b (fresh_entry 1 0))

seed_step_ne :
    (t : BucketAllocTable) (b k : ℕ) → k ≢ b → table_get (seed_step t b) k ≡ table_get t k
seed_step_ne t b k h = ground (arith, table_get-insert_ne t b k (fresh_entry 1 0) h)

seed_from_outside :
    (n b : ℕ) (t : BucketAllocTable) (k : ℕ)
    → (k < b) ⊎ (b + n ≤ k)
    → table_get (seed_from n b t) k ≡ table_get t k
unfolding seed_from
seed_from_outside zero b t k h = refl
seed_from_outside (suc n) b t k h =
    seed_from_outside n (b + 1) (seed_step t b) k (omega arith) ∙ seed_step_ne t b k (omega arith)

seed_from_inside :
    (n b : ℕ) (t : BucketAllocTable) (k : ℕ)
    → b ≤ k
    → k < b + n
    → table_get (seed_from n b t) k ≡ or_fresh (table_get t k)
unfolding seed_from
seed_from_inside zero b t k p q = absurd (omega arith)
seed_from_inside (suc n) b t k p q =
    from_next (λ j. j < b + suc n → table_get (seed_from (suc n) b t) j ≡ or_fresh (table_get t j))
      p
      (λ _. seed_from_outside n (b + 1) (seed_step t b) b (inl (omega arith)) ∙ seed_step_self t b)
      (λ p' q'.
        seed_from_inside n (b + 1) (seed_step t b) k (omega arith) (omega arith)
        ∙ ap or_fresh (seed_step_ne t b k (omega arith)))
      q

-- `seed_freelist` gives each bucket of the usable range that has no record a free one of generation 1,
-- and leaves every record that is there, inside the range or outside, as it was.
seed_freelist_effect :
    (a : BucketAllocator) (k : ℕ)
    → table_get (seed_freelist a).table k ≡ (
        if leb a.first_usable_bucket k && ltb k a.total_buckets
        then or_fresh (table_get a.table k)
        else table_get a.table k)
unfolding seed_freelist
seed_freelist_effect a k =
    let n = a.total_buckets - a.first_usable_bucket in
    let b = a.first_usable_bucket in
    ground (arith, seed_from_inside n b a.table k, seed_from_outside n b a.table k)

-- Decoding a byte yields a bucket type exactly when the byte is the number of that type.
pub data_type_from_u8-ok_iff :
    (v : ℕ) (t : BucketDataType) → (data_type_from_u8 v ≡ ok t) ↔ (v ≡ data_type_to_u8 t)
unfolding data_type_from_u8 data_type_to_u8
data_type_from_u8-ok_iff v t = ground arith
