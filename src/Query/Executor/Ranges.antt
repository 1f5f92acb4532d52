-- ===== src/Query/Executor/Ranges.antt =====
-- The comparisons of `crates/query/src/executor.rs` over the range index of `crates/index/src/range_index.rs`.
use mimisbrunnr.Base.{
  ℕ, ◌-◌, ◌^◌, ◌<◌, ◌≡◌, refl, ap₂, ◌∙◌, Bool, true, not, ◌&&◌, ◌||◌, List, ◌∷◌, arith,
}
use mimisbrunnr.Base.Int.{ℤ, pos, negsuc, ltb_ℤ, IsI64}
use mimisbrunnr.Types.ObjectId.{TagId}
use mimisbrunnr.Types.Value.{Value, text, int}
use mimisbrunnr.Types.Query.{CmpOp, lt_op, le_op, gt_op, ge_op, has_attr}
use mimisbrunnr.Index.Bitmap.{Bitmap}
use mimisbrunnr.Index.NormalisedKey.{from_value, byte_string, copied, compare_bytes}
use mimisbrunnr.Index.RangeIndex.KeyOrder.{compare_key}
use mimisbrunnr.Index.RangeIndex.Map.{is_gt, key_of, RangeIndex, lookup, range_scan}
use mimisbrunnr.Index.RangeIndex.Laws.{range_scan-none}
use mimisbrunnr.Index.RangeIndex.Ints.{
  Filing, AllI64, has_int, has_int_ext, has_int_or, eq_ℤ, index_of, contains-lookup_int,
  range_scan_int,
}
use mimisbrunnr.Query.Executor.{
  value, panicked, Indexes, type_min, type_max, repeated, scanned, eval_range, eval_has_attr,
  evaluate,
}

-- The executor's indexes with the range index `m`.
abbrev pub over : (b : Bitmap) → Indexes b → RangeIndex b → Indexes b
over b x m = record {
  stores = x.stores;
  kv_lookup = x.kv_lookup;
  range_lookup = lookup b m;
  range_scan = range_scan b m;
  objects = x.objects;
  materialise = x.materialise;
}

abbrev pub i64_min : ℤ
i64_min = negsuc (2 ^ 63 - 1)

abbrev pub i64_max : ℤ
i64_max = pos (2 ^ 63 - 1)

abbrev from_min : ℤ → ℤ → Bool
from_min v y = not (ltb_ℤ y i64_min) && ltb_ℤ y v

from_min_lem : (v y : ℤ) → IsI64 y → from_min v y ≡ ltb_ℤ y v
from_min_lem v y h = ground arith

up_to_lem : (v y : ℤ) → IsI64 y → (from_min v y || eq_ℤ y v) ≡ not (ltb_ℤ v y)
up_to_lem v y h = ground arith

module _ (b : Bitmap) (x : Indexes b) (key : TagId) where
  -- The evaluation of a comparison with `v` succeeds and finds the objects that pass the test.
  abbrev pub Finds : RangeIndex b → CmpOp → Value → (ℕ → Bool) → Type 0
  Finds m op v p =
      (s : b.Set) × (evaluate b (over b x m) (has_attr key op v) ≡ value s)
      × ((i : ℕ) → b.contains i s ≡ p i)

  -- Over a range index filled with i64 integers, the comparisons < and <= with an i64 integer
  -- succeed and find exactly the objects with an integer below, and up to, the one that is
  -- compared.
  pub evaluate_below :
      (l : Filing) (v : ℤ)
      → AllI64 l
      → IsI64 v
      → Finds (index_of b key l) lt_op (int v) (has_int (λ y. ltb_ℤ y v) l)
        × Finds (index_of b key l) le_op (int v) (has_int (λ y. not (ltb_ℤ v y)) l)
  unfolding evaluate eval_has_attr eval_range scanned type_min
  evaluate_below l v h k =
      let m = index_of b key l in
      let (s, e, f) = range_scan_int b key l i64_min v h (ground arith) k (ground arith) in
      (
        (s, rw e refl, λ i. f i ∙ has_int_ext (from_min v) (λ y. ltb_ℤ y v) l i h (from_min_lem v)),
        (
          b.union s (lookup b m key (int v)),
          rw e refl,
          λ i.
              b.contains-union i s (lookup b m key (int v))
              ∙ ap₂ ◌||◌ (f i) (contains-lookup_int b key l v i h k)
              ∙ has_int_or (from_min v) (λ y. eq_ℤ y v) l i
              ∙ has_int_ext _ (λ y. not (ltb_ℤ v y)) l i h (up_to_lem v),
        ),
      )

  -- Over a range index filled with i64 integers, the comparisons > and >= with an i64 integer
  -- succeed; of the integers above it they find those below i64::MAX, where > leaves out an
  -- object that also has the integer itself, and >= has it in.
  pub evaluate_above :
      (l : Filing) (v : ℤ)
      → AllI64 l
      → IsI64 v
      → Finds (index_of b key l) gt_op (int v) (λ i.
        has_int (λ y. not (ltb_ℤ y v) && ltb_ℤ y i64_max) l i && not (has_int (λ y. eq_ℤ y v) l i))
        × Finds (index_of b key l) ge_op (int v) (λ i.
          has_int (λ y. not (ltb_ℤ y v) && ltb_ℤ y i64_max) l i || has_int (λ y. eq_ℤ y v) l i)
  unfolding evaluate eval_has_attr eval_range scanned type_max
  evaluate_above l v h k =
      let m = index_of b key l in
      let (s, e, f) = range_scan_int b key l v i64_max h k (ground arith) (ground arith) in
      (
        (
          b.difference s (lookup b m key (int v)),
          rw e refl,
          λ i.
              b.contains-difference i s (lookup b m key (int v))
              ∙ ap₂ (λ u w. u && not w) (f i) (contains-lookup_int b key l v i h k),
        ),
        (
          b.union s (lookup b m key (int v)),
          rw e refl,
          λ i.
              b.contains-union i s (lookup b m key (int v))
              ∙ ap₂ ◌||◌ (f i) (contains-lookup_int b key l v i h k),
        ),
      )

  past_type_max :
      (c : ℕ) (bs : List ℕ)
      → 239 < c
      → is_gt (compare_key (key_of key (text (c ∷ bs))) (key_of key (type_max (text (c ∷ bs)))))
        ≡ true
  unfolding compare_key from_value byte_string copied type_max repeated compare_bytes
  past_type_max c bs h = ground arith

  -- The comparisons > and >= with a text whose first byte is above 239, the first one of U+FFFD,
  -- panic, whatever the range index holds.
  pub evaluate-panicked :
      (m : RangeIndex b) (c : ℕ) (bs : List ℕ)
      → 239 < c
      → (evaluate b (over b x m) (has_attr key gt_op (text (c ∷ bs))) ≡ panicked)
        × (evaluate b (over b x m) (has_attr key ge_op (text (c ∷ bs))) ≡ panicked)
  unfolding evaluate eval_has_attr eval_range scanned
  evaluate-panicked m c bs h =
      let e =
        range_scan-none b m key (text (c ∷ bs)) (type_max (text (c ∷ bs))) (past_type_max c bs h) in
      (rw e refl, rw e refl)
