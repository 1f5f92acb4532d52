-- ===== src/Query/Executor/Total.antt =====
-- When `evaluate` of `crates/query/src/executor.rs` has a result.
use mimisbrunnr.Base.{◌≡◌, refl, Bool, true, false, ◌&&◌, List, [], ◌∷◌, Option, none, some, arith}
use mimisbrunnr.Types.ObjectId.{TagId}
use mimisbrunnr.Types.Value.{Value}
use mimisbrunnr.Types.Query.{
  CmpOp, eq_op, ne_op, lt_op, le_op, gt_op, ge_op, prefix, contains, Query, Queries, has_tag,
  has_attr, related, and_all, or_any, not_in, is_a, no_queries, query,
}
use mimisbrunnr.Index.Bitmap.{Bitmap}
use mimisbrunnr.Query.Executor.{
  value, Indexes, type_min, type_max, scanned, eval_range, eval_has_attr, universe, join,
  meet_sorted, sort_by_len, evaluate, evaluate_all,
}

module _ (b : Bitmap) (x : Indexes b) where
  abbrev pub is_scanned : Option b.Set → Bool
  is_scanned none = false
  is_scanned (some s) = true

  -- No substring search, and no comparison whose scan of the range index panics.
  abbrev pub attr_answers : TagId → CmpOp → Value → Bool
  attr_answers key lt_op v = is_scanned (x.range_scan key (type_min v) v)
  attr_answers key le_op v = is_scanned (x.range_scan key (type_min v) v)
  attr_answers key gt_op v = is_scanned (x.range_scan key v (type_max v))
  attr_answers key ge_op v = is_scanned (x.range_scan key v (type_max v))
  attr_answers key contains v = false
  attr_answers key op v = true

  unfoldable mutual
    pub answers : Query → Bool
    answers (has_tag tag) = true
    answers (has_attr key op v) = attr_answers key op v
    answers (related predicate target) = true
    answers (and_all qs) = all_answer qs
    answers (or_any qs) = all_answer qs
    answers (not_in q) = answers q
    answers (is_a tag) = true

    pub all_answer : Queries → Bool
    all_answer no_queries = true
    all_answer (query q qs) = answers q && all_answer qs

  scanned-value :
      (o : Option b.Set) (f : b.Set → b.Set)
      → is_scanned o ≡ true
      → (s : b.Set) × (scanned b x o f ≡ value s)
  unfolding scanned
  scanned-value none f h = cc
  scanned-value (some s) f h = (f s, refl)

  attr-value :
      (key : TagId) (op : CmpOp) (v : Value)
      → attr_answers key op v ≡ true
      → (s : b.Set) × (eval_has_attr b x key op v ≡ value s)
  unfolding eval_has_attr eval_range
  attr-value key eq_op v h = (_, refl)
  attr-value key ne_op v h = (_, refl)
  attr-value key lt_op v h = scanned-value _ _ h
  attr-value key le_op v h = scanned-value _ _ h
  attr-value key gt_op v h = scanned-value _ _ h
  attr-value key ge_op v h = scanned-value _ _ h
  attr-value key prefix v h = (_, refl)
  attr-value key contains v h = cc

  and_left : (p q : Bool) → (p && q) ≡ true → p ≡ true
  and_left p q h = ground (arith, h)

  and_right : (p q : Bool) → (p && q) ≡ true → q ≡ true
  and_right p q h = ground (arith, h)

  mutual
    unfolding answers all_answer evaluate evaluate_all

    evaluate-answers : (q : Query) → answers q ≡ true → (s : b.Set) × (evaluate b x q ≡ value s)
    evaluate-answers (has_tag tag) h = (_, refl)
    evaluate-answers (has_attr key op v) h = attr-value key op v h
    evaluate-answers (related predicate target) h = (_, refl)
    evaluate-answers (and_all qs) h =
        let (ss, e) = all_answers qs h in (meet_sorted b (sort_by_len b ss), rw e refl)
    evaluate-answers (or_any qs) h =
        let (ss, e) = all_answers qs h in (join b b.empty ss, rw e refl)
    evaluate-answers (not_in q) h =
        let (s, e) = evaluate-answers q h in (b.difference (universe b x) s, rw e refl)
    evaluate-answers (is_a tag) h = (_, refl)

    all_answers :
        (qs : Queries) → all_answer qs ≡ true → (ss : List b.Set) × (evaluate_all b x qs ≡ value ss)
    all_answers no_queries h = ([], refl)
    all_answers (query q qs) h =
        let (s, e) = evaluate-answers q (and_left (answers q) (all_answer qs) h) in
        let (ss, f) = all_answers qs (and_right (answers q) (all_answer qs) h) in
        (s ∷ ss, rw (e, f) refl)

  -- A query without a substring search, and without a comparison whose range scan panics, has a
  -- result.
  pub evaluate-value : (q : Query) → answers q ≡ true → (s : b.Set) × (evaluate b x q ≡ value s)
  evaluate-value q h = evaluate-answers q h
