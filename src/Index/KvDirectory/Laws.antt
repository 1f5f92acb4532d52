-- ===== src/Index/KvDirectory/Laws.antt =====
-- A directory of `crates/index/src/kv_directory.rs` that `validate` accepts is an array of
-- `2 ^ global_depth` references.
use native.Mathlib.Nat.{pow-le-pow_right}
use mimisbrunnr.Base.{
  ℕ, zero, suc, ◌≤◌, ◌<◌, ◌≡◌, ◌^◌, refl, List, [], ◌∷◌, length, length-set, length-replicate,
  replicate, get_or, set, ◌&&◌, ok, if◌then◌else◌, ltb, ◌==◌, arith, bytes_eq_refl,
}
use mimisbrunnr.Storage.Block.{
  BlockRef, null_ref, new_header, kind_to_u16, block_preamble_magic_block,
}
use mimisbrunnr.Index.KvDirectory.{
  KvDirectoryBlock, fresh, new, count, set_entry, get_entry, validate,
}

-- A directory that `validate` accepts, with its full array.
pub record IsDirectory (b : KvDirectoryBlock) : Type 0 where
  pub array : length b.entries ≡ 252
  pub valid : validate b ≡ ok tt

pow_le : (n : ℕ) → n ≤ 7 → 2 ^ n ≤ 2 ^ 7
pow_le n h = pow-le-pow_right (omega arith) h

-- A valid directory has at most 128 buckets, so each of them has its place in the array.
pub count-IsDirectory :
    (b : KvDirectoryBlock)
    → IsDirectory b
    → (count b ≡ 2 ^ b.global_depth) × (count b ≤ 128) × (b.global_depth ≤ 7)
unfolding count validate
count-IsDirectory b v = ground (arith, v.valid, pow_le b.global_depth)

get_or-set :
    {A : Type 0} (xs : List A) (i : ℕ) (v : A) (j : ℕ) (d : A)
    → i < length xs
    → get_or (set xs i v) j d ≡ (if j == i then v else get_or xs j d)
get_or-set [] i v j d h = absurd (omega arith)
get_or-set (x ∷ xs) zero v zero d h = refl
get_or-set (x ∷ xs) zero v (suc j) d h = ground arith
get_or-set (x ∷ xs) (suc i) v zero d h = ground arith
get_or-set (x ∷ xs) (suc i) v (suc j) d h = ground (arith, get_or-set xs i v j d (omega arith))

-- On a valid directory, `set_entry` at a bucket number below the count stores the reference there, and
-- leaves every other place; past the count it changes nothing. The directory stays valid.
set_entry_lem :
    (b : KvDirectoryBlock) (idx : ℕ) (r : BlockRef) (j : ℕ)
    → IsDirectory b
    → (get_entry (set_entry b idx r) j
        ≡ (if j == idx && ltb idx (count b) then r else get_entry b j))
      × IsDirectory (set_entry b idx r)
unfolding set_entry get_entry validate count
set_entry_lem b idx r j v = (
  ground (arith, v.array, count-IsDirectory b v, get_or-set b.entries idx r j null_ref),
  record {
    array = ground (arith, v.array, length-set b.entries idx r);
    valid = ground (arith, v.valid);
  },
)

get_or-replicate : {A : Type 0} (n : ℕ) (v : A) (j : ℕ) → get_or (replicate n v) j v ≡ v
get_or-replicate zero v j = refl
get_or-replicate (suc n) v zero = refl
get_or-replicate (suc n) v (suc j) = get_or-replicate n v j

pub fresh-IsDirectory : (global_depth : ℕ) → global_depth ≤ 7 → IsDirectory (fresh global_depth)
unfolding fresh validate new_header kind_to_u16
fresh-IsDirectory global_depth h = record {
  array = length-replicate 252 null_ref;
  valid = ground (arith, bytes_eq_refl block_preamble_magic_block);
}

-- `new` succeeds up to depth 7; the directory is then valid, and each of its `2 ^ global_depth` places is
-- the null reference.
pub new_lem :
    (global_depth idx : ℕ)
    → global_depth ≤ 7
    → (b : KvDirectoryBlock) × (new global_depth ≡ ok b)
      × IsDirectory b
      × (count b ≡ 2 ^ global_depth)
      × (get_entry b idx ≡ null_ref)
unfolding new fresh get_entry count
new_lem global_depth idx h = (
  fresh global_depth,
  ground arith,
  fresh-IsDirectory global_depth h,
  refl,
  ground (arith, get_or-replicate 252 null_ref idx),
)
