-- ===== src/Index/KvBucket/Laws.antt =====
-- `upsert` and `lookup` of `crates/index/src/kv_bucket.rs` are those of a finite map of up to 144 keys.
use mimisbrunnr.Base.{
  ℕ, zero, suc, ◌+◌, ◌≤◌, ◌<◌, ◌≡◌, refl, List, [], ◌∷◌, length, length-set, length-replicate, take,
  set, Option, none, some, true, ◌&&◌, ◌||◌, ◌↔◌, is_some, ok, err, if◌then◌else◌, ◌==◌, arith,
}
use mimisbrunnr.Storage.Block.{BlockRef}
use mimisbrunnr.Index.KvBucket.{
  KvBucketEntry, KvBucketBlock, bucket_full, default_entry, new, is_key, find, lookup, overwrite,
  push, upsert, len, is_full,
}

-- An array of 144 entries, of which the first ones are occupied.
pub record IsBucket (b : KvBucketBlock) : Type 0 where
  pub array : length b.entries ≡ 144
  pub count : b.entry_count ≤ 144

pub new-IsBucket : (local_depth : ℕ) → IsBucket (new local_depth)
unfolding new
new-IsBucket local_depth = record {
  array = length-replicate 144 default_entry;
  count = omega arith;
}

-- A key that is occupied is overwritten, and then found with the new value; other keys are not touched.
abbrev Overwritten :
    ℕ → ℕ → ℕ → BlockRef → ℕ → ℕ → List KvBucketEntry → Option (List KvBucketEntry) → Type 0
Overwritten n t h r t' h' es none = find t h (take n es) ≡ none
Overwritten n t h r t' h' es (some es') =
    (length es' ≡ length es)
    × (is_some (find t h (take n es)) ≡ true)
    × (find t' h' (take n es') ≡ (if t' == t && h' == h then some r else find t' h' (take n es)))

overwrite_lem :
    (n t h : ℕ) (r : BlockRef) (t' h' : ℕ) (es : List KvBucketEntry)
    → Overwritten n t h r t' h' es (overwrite n t h r es)
unfolding find overwrite is_key
overwrite_lem zero t h r t' h' es = refl
overwrite_lem (suc n) t h r t' h' [] = refl
overwrite_lem (suc n) t h r t' h' (e ∷ es) = ground (arith, overwrite_lem n t h r t' h' es)

-- An entry stored behind `n` entries without its key is found, and no other key is touched.
find-set :
    (n t h : ℕ) (r : BlockRef) (t' h' : ℕ) (es : List KvBucketEntry)
    → n < length es
    → find t h (take n es) ≡ none
    → find t' h' (take (n + 1) (set es n (record { tag_id = t; value_hash = h; bitmap_ref = r })))
      ≡ (if t' == t && h' == h then some r else find t' h' (take n es))
unfolding find is_key
find-set n t h r t' h' [] l f = absurd (omega arith)
find-set zero t h r t' h' (e ∷ es) l f = ground arith
find-set (suc n) t h r t' h' (e ∷ es) l f = ground (arith, find-set n t h r t' h' es (omega arith))

-- After an `upsert` that succeeds, `lookup` finds the new value at its key, and at every other key what it
-- found before.
pub lookup-upsert :
    (b : KvBucketBlock) (t h : ℕ) (r : BlockRef) (t' h' : ℕ)
    → IsBucket b
    → (upsert b t h r).1 ≡ ok tt
    → lookup (upsert b t h r).0 t' h' ≡ (if t' == t && h' == h then some r else lookup b t' h')
unfolding upsert lookup push
lookup-upsert b t h r t' h' v o = ground (
  arith,
  v.array,
  v.count,
  overwrite_lem b.entry_count t h r t' h' b.entries,
  find-set b.entry_count t h r t' h' b.entries,
)

-- `upsert` fails exactly when all 144 places are taken and the key is not among them.
upsert-err_iff :
    (b : KvBucketBlock) (t h : ℕ) (r : BlockRef)
    → IsBucket b
    → ((upsert b t h r).1 ≡ err bucket_full) ↔ ((is_full b ≡ true) × (lookup b t h ≡ none))
unfolding upsert lookup is_full
upsert-err_iff b t h r v =
    ground (arith, v.array, v.count, overwrite_lem b.entry_count t h r t h b.entries)

-- `upsert` keeps the bucket well formed; it adds an entry at most when the key is new, and a failed one
-- changes nothing.
upsert-IsBucket :
    (b : KvBucketBlock) (t h : ℕ) (r : BlockRef)
    → IsBucket b
    → IsBucket (upsert b t h r).0
      × (len (upsert b t h r).0
          ≡ (if is_full b || is_some (lookup b t h) then len b else len b + 1))
unfolding upsert lookup is_full len push
upsert-IsBucket b t h r v = ground (
  arith,
  v.array,
  v.count,
  overwrite_lem b.entry_count t h r t h b.entries,
  length-set b.entries b.entry_count (record { tag_id = t; value_hash = h; bitmap_ref = r }),
)
