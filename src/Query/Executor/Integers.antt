-- ===== src/Query/Executor/Integers.antt =====
-- Comparisons of `crates/query/src/executor.rs` with an integer, over what a range index owes them.
use mimisbrunnr.Base.{ℕ, ◌≡◌, sym, ◌∙◌, false, not, ◌&&◌, ◌||◌, some, arith}
use mimisbrunnr.Base.Int.{ℤ, ltb_ℤ, IsI64}
use mimisbrunnr.Types.ObjectId.{TagId}
use mimisbrunnr.Types.Value.{int}
use mimisbrunnr.Index.Bitmap.{Bitmap}
use mimisbrunnr.Index.RangeIndex.Ints.{
  Filing, has_int, eq_ℤ, index_of, contains-lookup_int, range_scan_int,
}
use mimisbrunnr.Query.Executor.{Indexes, type_min, type_max}
use mimisbrunnr.Query.Executor.Ranges.{over, i64_min, i64_max}
use mimisbrunnr.Query.Executor.Leaves.{
  AllBelowMax, AllBelowMax-AllI64, same_ints, either_int, or_same,
}

module _ (b : Bitmap) (x : Indexes b) where
  -- The range index answers for the tag as one does in which the integers of `l` are filed: by equality,
  -- and by a half-open range.
  pub record Keeps (key : TagId) (l : Filing) : Type 0 where
    pub below_max : AllBelowMax l
    pub looked_up :
        (v : ℤ) (i : ℕ)
        → IsI64 v
        → b.contains i (x.range_lookup key (int v)) ≡ has_int (λ y. eq_ℤ y v) l i
    pub scanned :
        (low high : ℤ)
        → IsI64 low
        → IsI64 high
        → ltb_ℤ high low ≡ false
        → (s : b.Set) × (x.range_scan key (int low) (int high) ≡ some s)
          × ((i : ℕ) → b.contains i s ≡ has_int (λ y. not (ltb_ℤ y low) && ltb_ℤ y high) l i)

-- The range index of `crates/index/src/range_index.rs` does, filled with integers below i64::MAX.
pub index_of-Keeps :
    (b : Bitmap) (x : Indexes b) (key : TagId) (l : Filing)
    → AllBelowMax l
    → Keeps b (over b x (index_of b key l)) key l
index_of-Keeps b x key l h = record {
  below_max = h;
  looked_up = λ v i k. contains-lookup_int b key l v i (AllBelowMax-AllI64 l h) k;
  scanned = λ low high k k' e. range_scan_int b key l low high (AllBelowMax-AllI64 l h) k k' e;
}

module _ (b : Bitmap) (x : Indexes b) where
  pub below_lem :
      (key : TagId) (l : Filing) (v : ℤ)
      → IsI64 v
      → Keeps b x key l
      → (s : b.Set) × (x.range_scan key (type_min (int v)) (int v) ≡ some s)
        × ((i : ℕ) → b.contains i s ≡ has_int (λ y. ltb_ℤ y v) l i)
  unfolding type_min
  below_lem key l v h k =
      let (s, e, f) = k.scanned i64_min v (ground arith) h (ground arith) in
      (s, e, λ i. f i ∙ same_ints _ _ l i k.below_max (λ y hy m. ground arith))

  pub above_lem :
      (key : TagId) (l : Filing) (v : ℤ)
      → IsI64 v
      → Keeps b x key l
      → (s : b.Set) × (x.range_scan key (int v) (type_max (int v)) ≡ some s)
        × ((i : ℕ) → b.contains i s ≡ has_int (λ y. not (ltb_ℤ y v)) l i)
  unfolding type_max
  above_lem key l v h k =
      let (s, e, f) = k.scanned v i64_max h (ground arith) (ground arith) in
      (s, e, λ i. f i ∙ same_ints _ _ l i k.below_max (λ y hy m. ground (arith, m)))

  pub below_or :
      (key : TagId) (l : Filing) (v : ℤ) (i : ℕ)
      → Keeps b x key l
      → (has_int (λ y. ltb_ℤ y v) l i || has_int (λ y. eq_ℤ y v) l i)
        ≡ has_int (λ y. not (ltb_ℤ v y)) l i
  below_or key l v i k = either_int _ _ _ l i k.below_max (λ y hy m. ground arith)

  pub above_or :
      (key : TagId) (l : Filing) (v : ℤ) (i : ℕ)
      → Keeps b x key l
      → (has_int (λ y. not (ltb_ℤ y v)) l i || has_int (λ y. eq_ℤ y v) l i)
        ≡ has_int (λ y. not (ltb_ℤ y v)) l i
  above_or key l v i k = either_int _ _ _ l i k.below_max (λ y hy m. ground arith)

  pub strictly_above :
      (key : TagId) (l : Filing) (v : ℤ) (i : ℕ)
      → Keeps b x key l
      → (has_int (λ y. not (ltb_ℤ y v)) l i && not (has_int (λ y. eq_ℤ y v) l i))
        ≡ (has_int (λ y. ltb_ℤ v y) l i && not (has_int (λ y. eq_ℤ y v) l i))
  strictly_above key l v i k = or_same _ _ _ (
      above_or key l v i k
      ∙ sym
          (either_int (λ y. ltb_ℤ v y) (λ y. eq_ℤ y v) _ l i k.below_max (λ y hy m. ground arith)))
