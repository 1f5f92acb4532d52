-- ===== src/Storage/Freespace/Laws.antt =====
-- The mirror of `crates/storage/src/freespace.rs` is a set of triples, and a band of it is a scan.
use mimisbrunnr.Base.{
  ℕ, ◌-◌, ◌<◌, ◌^◌, ◌≡◌, refl, List, [], ◌∷◌, keep, true, false, ◌&&◌, ◌==◌, if◌then◌else◌, arith,
}
use mimisbrunnr.Base.OrdMap.Laws.{Ascends, insert-Ascends, remove-Ascends, get-insert, get-remove}
use mimisbrunnr.Storage.Freespace.{
  FreespaceLruKey, FreespaceLru, key, key_ord, cmp_key, le_key, eq_key, insert, remove, contains,
  iter, iter_band,
}

-- The entries are in key order, as in every `BTreeMap`.
abbrev pub IsSorted : FreespaceLru → Type 0
IsSorted lru = Ascends lru.entries

-- Every disk id is a `u16` and every bucket number a `u32`.
abbrev pub AllInRange : List FreespaceLruKey → Type 0
AllInRange [] = Unit
AllInRange (k ∷ ks) = (k.disk_id < 2 ^ 16) × (k.bucket_no < 2 ^ 32) × AllInRange ks

-- After an `insert` exactly the inserted triple is new.
pub contains-insert :
    (lru : FreespaceLru) (band disk bucket band' disk' bucket' : ℕ)
    → IsSorted lru
    → (contains (insert lru band disk bucket) band' disk' bucket' ≡ (
        if eq_key (key band' disk' bucket') (key band disk bucket)
        then true
        else contains lru band' disk' bucket'))
      × IsSorted (insert lru band disk bucket)
unfolding contains insert eq_key key_ord cmp_key
contains-insert lru band disk bucket band' disk' bucket' s = (
  ground (arith, get-insert (key band' disk' bucket') (key band disk bucket) tt lru.entries),
  insert-Ascends (key band disk bucket) tt lru.entries s,
)

-- After a `remove` exactly the removed triple is gone, and the result says whether it was there.
pub contains-remove :
    (lru : FreespaceLru) (band disk bucket band' disk' bucket' : ℕ)
    → IsSorted lru
    → ((remove lru band disk bucket).1 ≡ contains lru band disk bucket)
      × (contains (remove lru band disk bucket).0 band' disk' bucket' ≡ (
          if eq_key (key band' disk' bucket') (key band disk bucket)
          then false
          else contains lru band' disk' bucket'))
      × IsSorted (remove lru band disk bucket).0
unfolding contains remove eq_key key_ord cmp_key
contains-remove lru band disk bucket band' disk' bucket' s = (
  refl,
  ground (arith, get-remove (key band' disk' bucket') (key band disk bucket) lru.entries s),
  remove-Ascends (key band disk bucket) lru.entries s,
)

band_keys :
    (band : ℕ) (ks : List FreespaceLruKey)
    → AllInRange ks
    → keep (λ k. le_key (key band 0 0) k && le_key k (key band (2 ^ 16 - 1) (2 ^ 32 - 1))) ks
      ≡ keep (λ k. k.fragmentation_band == band) ks
unfolding keep le_key cmp_key
band_keys band [] r = refl
band_keys band (k ∷ ks) r = ground (arith, r.0, r.1, band_keys band ks r.2)

-- The scan of a band yields exactly the keys of that band, in the order of the whole set.
iter_band_lem :
    (lru : FreespaceLru) (band : ℕ)
    → AllInRange (iter lru)
    → iter_band lru band ≡ keep (λ k. k.fragmentation_band == band) (iter lru)
unfolding iter_band
iter_band_lem lru band r = band_keys band (iter lru) r
