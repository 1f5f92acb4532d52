-- ===== src/Query/Executor/Tests.antt =====
-- Tests of `QueryExecutor` of `crates/query/src/executor.rs`, and its theorems at concrete inputs.
use mimisbrunnr.Base.{
  ℕ, ◌≡◌, refl, true, false, not, elem, ◌&&◌, ◌||◌, [], ◌∷◌, some, ◌==◌, if◌then◌else◌, zeros,
  arith,
}
use mimisbrunnr.Base.Int.{pos, negsuc, ltb_ℤ}
use mimisbrunnr.Base.OrdMap
use mimisbrunnr.Base.OrdMap.{get}
use mimisbrunnr.Types.ObjectId.{local_seq}
use mimisbrunnr.Types.Value.{int, text}
use mimisbrunnr.Types.Assertion.{attr, relation}
use mimisbrunnr.Types.Query.{
  lt_op, le_op, gt_op, ge_op, contains, Query, has_tag, has_attr, related, and_all, or_any, not_in,
  is_a, no_queries, query,
}
use mimisbrunnr.Index.Bitmap.{list_bitmap, set_of}
use mimisbrunnr.Index.NormalisedKey.{from_value, be_bytes, unsigned, compare_bytes}
use mimisbrunnr.Index.RangeIndex.KeyOrder.{compare_key, key_ord}
use mimisbrunnr.Index.RangeIndex.Map
use mimisbrunnr.Index.RangeIndex.Ints.{Filing, AllI64, has_int, eq_ℤ, index_of}
use mimisbrunnr.Query.Error.{unsupported_cmp_op}
use mimisbrunnr.Query.Executor.{
  value, failed, panicked, Indexes, oid_low32, has, is_related, type_max, place, sort_by_len,
  rotated, meet, meet_sorted, eval_has_tag, add_object, scan_objects, eval_related, scanned,
  eval_range, eval_has_attr, isa_loop, universe, universe_loop, evaluate, evaluate_all,
}
use mimisbrunnr.Query.Executor.Leaves.{AreDistinct}
use mimisbrunnr.Query.Executor.Integers.{Keeps, index_of-Keeps}
use mimisbrunnr.Query.Executor.Meaning.{
  means, all_mean, IsAnswerable, AreAnswerable, evaluate-means,
}
use mimisbrunnr.Query.Executor.Total.{answers, all_answer, evaluate-value}
use mimisbrunnr.Ontology.ListGraph.{graph_of, list_graph}
use mimisbrunnr.Ontology.Dag
use mimisbrunnr.Ontology.Dag.{ImplicationDag}
use mimisbrunnr.Ontology.Dag.Laws.{IsIndexed}
use mimisbrunnr.Query.Executor.IsA.{over_dag, below, evaluate-is_a}
use mimisbrunnr.Query.Executor.Ranges.{
  over, i64_max, Finds, evaluate_below, evaluate_above, evaluate-panicked,
}

abbrev pool : Indexes list_bitmap
pool = record {
  stores = (1, set_of (5 ∷ 6 ∷ [])) ∷ (2, set_of (6 ∷ 7 ∷ [])) ∷ [];
  kv_lookup = λ key v. if key == 3 then set_of (5 ∷ []) else set_of [];
  range_lookup = λ key v. set_of [];
  range_scan = λ key low high. some (set_of (5 ∷ 7 ∷ []));
  objects =
      (5, attr 3 (int (pos 1)) ∷ []) ∷ (6, relation 4 5 ∷ []) ∷ (7, attr 3 (int (pos 9)) ∷ []) ∷ [];
  materialise = λ t. if t == 2 then 2 ∷ 1 ∷ [] else t ∷ [];
}

-- Tagged 1 or below it, not related to object 5, and the attribute 3 is above 0.
abbrev wanted : Query
wanted = and_all (
    query (is_a 1)
      (query (not_in (related 4 5)) (query (has_attr 3 gt_op (int (pos 0))) no_queries)))

evaluate-wanted : evaluate list_bitmap pool wanted ≡ value (set_of (5 ∷ 7 ∷ []))
unfolding evaluate evaluate_all eval_has_attr eval_range scanned isa_loop has eval_has_tag universe
    universe_loop eval_related scan_objects add_object is_related oid_low32 local_seq meet_sorted
    sort_by_len place rotated meet list_bitmap set_of zeros
evaluate-wanted = refl

evaluate_contains :
    evaluate list_bitmap pool
      (or_any (query (has_tag 1) (query (has_attr 3 contains (text [])) no_queries)))
    ≡ failed unsupported_cmp_op
unfolding evaluate evaluate_all eval_has_attr
evaluate_contains = refl

evaluate-value_example : (s : list_bitmap.Set) × (evaluate list_bitmap pool wanted ≡ value s)
unfolding answers all_answer
evaluate-value_example = evaluate-value list_bitmap pool wanted refl

abbrev filing : Filing
filing = (7, pos 5) ∷ (8, negsuc 2) ∷ (7, pos 9) ∷ (6, i64_max) ∷ []

filing-AllI64 : AllI64 filing
filing-AllI64 = ground arith

-- The object 6, whose integer is `i64::MAX`, is not found above 4.
above_4 :
    evaluate list_bitmap
      (over list_bitmap pool (index_of list_bitmap 3 filing))
      (has_attr 3 gt_op (int (pos 4)))
    ≡ value (set_of (7 ∷ 7 ∷ []))
unfolding evaluate eval_has_attr eval_range scanned type_max Map.lookup Map.range_scan Map.range
    Map.join index_of Map.insert OrdMap.insert get key_ord compare_key compare_bytes from_value
    be_bytes unsigned Map.within list_bitmap set_of zeros
above_4 = refl

abbrev low_filing : Filing
low_filing = (7, pos 5) ∷ (8, negsuc 2) ∷ (5, negsuc 0) ∷ (7, pos 9) ∷ []

abbrev filed_pool : Indexes list_bitmap
filed_pool = over list_bitmap pool (index_of list_bitmap 3 low_filing)

-- Only the attribute 3 has integers.
abbrev filed_ints : ℕ → Filing
filed_ints key = if key == 3 then low_filing else []

low_filing-Keeps : Keeps list_bitmap filed_pool 3 low_filing
low_filing-Keeps = index_of-Keeps list_bitmap pool 3 low_filing (ground arith)

filed_pool-AreDistinct : AreDistinct list_bitmap filed_pool filed_pool.stores
filed_pool-AreDistinct = ground arith

wanted-IsAnswerable : IsAnswerable list_bitmap filed_pool filed_ints wanted
unfolding IsAnswerable AreAnswerable
wanted-IsAnswerable = (tt, (tt, (((omega arith, omega arith), low_filing-Keeps), tt)))

-- The object 7 is wanted, 5 has a negative integer, and 6 is related to 5.
means-wanted :
    (means list_bitmap filed_pool filed_ints wanted 7 ≡ true)
    × (means list_bitmap filed_pool filed_ints wanted 5 ≡ false)
    × (means list_bitmap filed_pool filed_ints wanted 6 ≡ false)
unfolding means all_mean list_bitmap set_of elem
means-wanted = (refl, refl, refl)

evaluate-means_example :
    (s : list_bitmap.Set) × (evaluate list_bitmap filed_pool wanted ≡ value s)
    × ((i : ℕ) → list_bitmap.contains i s ≡ means list_bitmap filed_pool filed_ints wanted i)
evaluate-means_example =
    evaluate-means list_bitmap filed_pool filed_ints filed_pool-AreDistinct wanted
      wanted-IsAnswerable

evaluate_below_example :
    Finds list_bitmap pool 3
      (index_of list_bitmap 3 filing)
      lt_op
      (int (pos 6))
      (has_int (λ y. ltb_ℤ y (pos 6)) filing)
    × Finds list_bitmap pool 3
        (index_of list_bitmap 3 filing)
        le_op
        (int (pos 6))
        (has_int (λ y. not (ltb_ℤ (pos 6) y)) filing)
evaluate_below_example =
    evaluate_below list_bitmap pool 3 filing (pos 6) filing-AllI64 (omega arith, omega arith)

evaluate_above_example :
    Finds list_bitmap pool 3 (index_of list_bitmap 3 filing) gt_op (int (pos 4)) (λ i.
      has_int (λ y. not (ltb_ℤ y (pos 4)) && ltb_ℤ y i64_max) filing i
      && not (has_int (λ y. eq_ℤ y (pos 4)) filing i))
    × Finds list_bitmap pool 3 (index_of list_bitmap 3 filing) ge_op (int (pos 4)) (λ i.
      has_int (λ y. not (ltb_ℤ y (pos 4)) && ltb_ℤ y i64_max) filing i
      || has_int (λ y. eq_ℤ y (pos 4)) filing i)
evaluate_above_example =
    evaluate_above list_bitmap pool 3 filing (pos 4) filing-AllI64 (omega arith, omega arith)

-- A text that starts with the first byte of an emoji.
evaluate-panicked_example :
    (evaluate list_bitmap
        (over list_bitmap pool [])
        (has_attr 3 gt_op (text (240 ∷ 159 ∷ 152 ∷ 128 ∷ [])))
      ≡ panicked)
    × (evaluate list_bitmap
          (over list_bitmap pool [])
          (has_attr 3 ge_op (text (240 ∷ 159 ∷ 152 ∷ 128 ∷ [])))
        ≡ panicked)
evaluate-panicked_example =
    evaluate-panicked list_bitmap pool 3 [] 240 (159 ∷ 152 ∷ 128 ∷ []) (omega arith)

-- The tag 2 implies 1.
abbrev dag : ImplicationDag list_graph
dag = record { graph = graph_of (1 ∷ 2 ∷ []) ((1, 0) ∷ []); nodes = (1, 0) ∷ (2, 1) ∷ [] }

dag-IsIndexed : IsIndexed list_graph dag
unfolding Dag.index_of list_graph graph_of
dag-IsIndexed = record {
  in_range = λ t i h. ground (arith, h);
  named = λ t i h. ground (arith, h);
  indexed = λ i h. ground (arith, h);
}

evaluate-is_a_example :
    (s : list_bitmap.Set) × (evaluate list_bitmap
        (over_dag list_bitmap pool list_graph dag)
        (is_a 1)
      ≡ value s)
    × ((i : ℕ) → list_bitmap.contains i s ≡ below list_bitmap pool list_graph dag 1 i pool.stores)
evaluate-is_a_example = evaluate-is_a list_bitmap pool list_graph dag dag-IsIndexed 1
