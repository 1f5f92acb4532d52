-- ===== src/Wal/Dirty.antt =====
-- `crates/wal/src/dirty.rs`: the journal pin of a dirty node.
use mimisbrunnr.Base.{
  ℕ, ◌+◌, ◌<◌, ◌≡◌, refl, List, [], ◌∷◌, length, Bool, false, if◌then◌else◌, ◌==◌, arith,
}
use mimisbrunnr.Storage.Block.{BlockRef}

pub record DirtyNode : Type 0 where
  pub block_ref : BlockRef
  pub last_persisted_lsn : ℕ
  pub pending_lsn_min : ℕ
  pub pending_lsn_max : ℕ
  pub pending_count : ℕ

-- `DirtyNode::new`
unfoldable pub new_dirty : BlockRef → ℕ → DirtyNode
new_dirty block_ref last_persisted_lsn = record {
  block_ref = block_ref;
  last_persisted_lsn = last_persisted_lsn;
  pending_lsn_min = 0;
  pending_lsn_max = 0;
  pending_count = 0;
}

-- The count is a `u32` that is taken not to overflow.
unfoldable pub pin : DirtyNode → ℕ → DirtyNode
pin n lsn = record n {
  pending_lsn_min = if n.pending_count == 0 then lsn else n.pending_lsn_min;
  pending_lsn_max = lsn;
  pending_count = n.pending_count + 1;
}

unfoldable pub is_clean : DirtyNode → Bool
is_clean n = n.pending_count == 0

unfoldable pub pin_all : DirtyNode → List ℕ → DirtyNode
pin_all n [] = n
pin_all n (l ∷ ls) = pin_all (pin n l) ls

-- The last of a list, or the value given.
abbrev pub last_or : ℕ → List ℕ → ℕ
last_or d [] = d
last_or d (x ∷ xs) = last_or x xs

pin_all_pinned :
    (n : DirtyNode) (ls : List ℕ)
    → 0 < n.pending_count
    → ((pin_all n ls).pending_lsn_min ≡ n.pending_lsn_min)
      × ((pin_all n ls).pending_lsn_max ≡ last_or n.pending_lsn_max ls)
      × ((pin_all n ls).pending_count ≡ n.pending_count + length ls)
unfolding pin_all pin
pin_all_pinned n [] h = (refl, refl, omega arith)
pin_all_pinned n (l ∷ ls) h =
    let (lo, hi, count) = pin_all_pinned (pin n l) ls (omega arith) in
    (ground arith, ground arith, ground arith)

-- A fresh pin that has seen the entries `l ∷ ls` holds the first as its oldest, the last as its
-- newest, and counts them all.
pub pin_all-new :
    (r : BlockRef) (p l : ℕ) (ls : List ℕ)
    → let n = pin_all (new_dirty r p) (l ∷ ls) in
      (n.pending_lsn_min ≡ l)
      × (n.pending_lsn_max ≡ last_or l ls)
      × (n.pending_count ≡ length (l ∷ ls))
      × (is_clean n ≡ false)
unfolding pin_all pin new_dirty is_clean
pin_all-new r p l ls =
    let (lo, hi, count) = pin_all_pinned (pin (new_dirty r p) l) ls (omega arith) in
    (lo, hi, ground arith, ground arith)
