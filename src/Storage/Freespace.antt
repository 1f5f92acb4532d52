-- ===== src/Storage/Freespace.antt =====
-- `crates/storage/src/freespace.rs`: the keys of the freespace LRU and its in-memory mirror. The B+ tree
-- image is not modelled here.
pub mod Laws
mod Tests
use mimisbrunnr.Base.{
  ℕ, ◌-◌, ◌^◌, ◌≡◌, List, [], ◌∷◌, map, keep, Bool, true, false, ◌&&◌, not, ◌==◌, Option, none,
  some, is_some, compare, Ordering, arith,
}
use mimisbrunnr.Base.OrdMap
use mimisbrunnr.Base.OrdMap.{Ord, OrdMap, then_with}
use Prim.Native.Nat.Ordering.{lt, eq, gt}

pub record FreespaceLruKey : Type 0 where
  pub fragmentation_band : ℕ
  pub disk_id : ℕ
  pub bucket_no : ℕ

-- `PartialEq::eq`
unfoldable pub eq_key : FreespaceLruKey → FreespaceLruKey → Bool
eq_key a b =
    a.fragmentation_band == b.fragmentation_band
    && (a.disk_id == b.disk_id && a.bucket_no == b.bucket_no)

-- `Ord::cmp`, the order of the triples.
unfoldable pub cmp_key : FreespaceLruKey → FreespaceLruKey → Ordering
cmp_key a b =
    then_with (compare a.fragmentation_band b.fragmentation_band)
      (then_with (compare a.disk_id b.disk_id) (compare a.bucket_no b.bucket_no))

cmp_key_refl : (a : FreespaceLruKey) → cmp_key a a ≡ eq
unfolding cmp_key
cmp_key_refl a = ground arith

eq_of_cmp_key : (a b : FreespaceLruKey) → cmp_key a b ≡ eq → a ≡ b
unfolding cmp_key
eq_of_cmp_key a b = ground arith

gt_of_lt_key : (a b : FreespaceLruKey) → cmp_key a b ≡ lt → cmp_key b a ≡ gt
unfolding cmp_key
gt_of_lt_key a b = ground arith

lt_of_gt_key : (a b : FreespaceLruKey) → cmp_key a b ≡ gt → cmp_key b a ≡ lt
unfolding cmp_key
lt_of_gt_key a b = ground arith

lt_trans_key : (a b c : FreespaceLruKey) → cmp_key a b ≡ lt → cmp_key b c ≡ lt → cmp_key a c ≡ lt
unfolding cmp_key
lt_trans_key a b c = ground arith

instance unfoldable pub key_ord : Ord FreespaceLruKey
unfolding cmp_key_refl eq_of_cmp_key gt_of_lt_key lt_of_gt_key lt_trans_key
key_ord = record {
  cmp = cmp_key;
  cmp_refl = cmp_key_refl;
  eq_of_cmp = eq_of_cmp_key;
  gt_of_lt = gt_of_lt_key;
  lt_of_gt = lt_of_gt_key;
  lt_trans = lt_trans_key;
}

abbrev pub key : ℕ → ℕ → ℕ → FreespaceLruKey
key fragmentation_band disk_id bucket_no = record {
  fragmentation_band = fragmentation_band;
  disk_id = disk_id;
  bucket_no = bucket_no;
}

-- `BTreeMap<FreespaceLruKey, ()>`
pub record FreespaceLru : Type 0 where
  pub entries : OrdMap FreespaceLruKey (Unit {0})

abbrev pub new : FreespaceLru
new = record { entries = [] }

unfoldable pub insert : FreespaceLru → ℕ → ℕ → ℕ → FreespaceLru
unfolding key_ord
insert lru band disk bucket = record lru {
  entries = OrdMap.insert (key band disk bucket) tt lru.entries;
}

-- The map after the call, beside whether the entry was present.
unfoldable pub remove : FreespaceLru → ℕ → ℕ → ℕ → FreespaceLru × Bool
unfolding key_ord
remove lru band disk bucket = (
  record lru { entries = OrdMap.remove (key band disk bucket) lru.entries },
  is_some (OrdMap.get (key band disk bucket) lru.entries),
)

unfoldable pub contains : FreespaceLru → ℕ → ℕ → ℕ → Bool
unfolding key_ord
contains lru band disk bucket = is_some (OrdMap.get (key band disk bucket) lru.entries)

-- The order of a key is not past that of another.
unfoldable pub le_key : FreespaceLruKey → FreespaceLruKey → Bool
unfolding cmp_key
le_key a b = elim (cmp_key a b) [ gt ↦ false | _ ↦ true ]

-- `self.entries.keys()`
unfoldable pub iter : FreespaceLru → List FreespaceLruKey
iter lru = map (λ e. e.0) lru.entries

-- `range((Included(lo), Included(hi)))`, as `BTreeMap` documents it: the keys between the bounds.
unfoldable pub iter_band : FreespaceLru → ℕ → List FreespaceLruKey
unfolding le_key iter
iter_band lru band =
    keep (λ k. le_key (key band 0 0) k && le_key k (key band (2 ^ 16 - 1) (2 ^ 32 - 1))) (iter lru)

unfoldable pub len : FreespaceLru → ℕ
len lru = OrdMap.len lru.entries

unfoldable pub is_empty : FreespaceLru → Bool
unfolding len
is_empty lru = len lru == 0
