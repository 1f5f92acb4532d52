-- ===== src/Query/Executor/Matches.antt =====
-- What `evaluate` of `crates/query/src/executor.rs` finds, object by object, over what it computes for the
-- leaves of a query.
use mimisbrunnr.Base.{
  ℕ, ◌≡◌, refl, sym, ap, ap₂, ◌∙◌, Bool, true, false, not, ◌&&◌, ◌||◌, List, [], ◌∷◌, Option, none,
  some, Option-cases, inl, inr, arith,
}
use mimisbrunnr.Types.ObjectId.{TagId}
use mimisbrunnr.Types.Value.{Value, text}
use mimisbrunnr.Types.Query.{
  CmpOp, eq_op, ne_op, lt_op, le_op, gt_op, ge_op, prefix, contains, Query, Queries, has_tag,
  has_attr, related, and_all, or_any, not_in, is_a, no_queries, query,
}
use mimisbrunnr.Index.Bitmap.{Bitmap}
use mimisbrunnr.Query.Executor.{
  value, Indexes, is_related, has_key, has_prefix, type_min, type_max, eval_has_tag, scan_objects,
  objects_with_attr_key, eval_prefix, scanned, eval_range, eval_has_attr, universe, evaluate,
  evaluate_all,
}
use mimisbrunnr.Query.Executor.Sets.{
  stated_of, >>=-eq-value, of_value, all_hold, some_hold, scan_finds, isa_of, tagged_of, is_nil,
  contains-meet_sorted, related_finds, join_finds, universe_finds, isa_finds,
}

module _ (b : Bitmap) (x : Indexes b) where
  -- What the range index has for one side of a comparison.
  abbrev pub scan_holds : Option b.Set → ℕ → Bool
  scan_holds none i = false
  scan_holds (some s) i = b.contains i s

  abbrev pub attr_matches : TagId → CmpOp → Value → ℕ → Bool
  attr_matches key eq_op v i = b.contains i (x.kv_lookup key v)
  attr_matches key ne_op v i =
      stated_of (has_key key) i x.objects && not (b.contains i (x.kv_lookup key v))
  attr_matches key lt_op v i = scan_holds (x.range_scan key (type_min v) v) i
  attr_matches key le_op v i =
      scan_holds (x.range_scan key (type_min v) v) i || b.contains i (x.range_lookup key v)
  attr_matches key gt_op v i =
      scan_holds (x.range_scan key v (type_max v)) i && not (b.contains i (x.range_lookup key v))
  attr_matches key ge_op v i =
      scan_holds (x.range_scan key v (type_max v)) i || b.contains i (x.range_lookup key v)
  attr_matches key prefix (text needle) i = stated_of (has_prefix key needle) i x.objects
  attr_matches key _ v i = false

  abbrev pub is_none : Queries → Bool
  is_none no_queries = true
  is_none (query q qs) = false

  -- A query for one object, over what the code finds for the leaves.
  unfoldable mutual
    pub matches : Query → ℕ → Bool
    matches (has_tag tag) i = b.contains i (eval_has_tag b x tag x.stores)
    matches (has_attr key op v) i = attr_matches key op v i
    matches (related predicate target) i = stated_of (is_related predicate target) i x.objects
    matches (and_all qs) i = not (is_none qs) && matches_all qs i
    matches (or_any qs) i = matches_any qs i
    matches (not_in q) i = tagged_of b x i x.stores && not (matches q i)
    matches (is_a tag) i = isa_of b x tag i x.stores

    pub matches_all : Queries → ℕ → Bool
    matches_all no_queries i = true
    matches_all (query q qs) i = matches q i && matches_all qs i

    pub matches_any : Queries → ℕ → Bool
    matches_any no_queries i = false
    matches_any (query q qs) i = matches q i || matches_any qs i

  attr_lem :
      (key : TagId) (op : CmpOp) (v : Value) (s : b.Set) (i : ℕ)
      → eval_has_attr b x key op v ≡ value s
      → b.contains i s ≡ attr_matches key op v i
  unfolding eval_has_attr eval_range scanned eval_prefix objects_with_attr_key
  attr_lem key eq_op v s i h = ground arith
  attr_lem key ne_op v s i h = ground (
    arith,
    scan_finds b x (has_key key) i,
    b.contains-difference i (scan_objects b x (has_key key) x.objects b.empty) (x.kv_lookup key v),
  )
  attr_lem key lt_op v s i h = elim (Option-cases (x.range_scan key (type_min v) v)) [
    | inl e ↦ ground (arith, e)
    | inr (t, e) ↦ ground (arith, e)
  ]
  attr_lem key le_op v s i h = elim (Option-cases (x.range_scan key (type_min v) v)) [
    | inl e ↦ ground (arith, e)
    | inr (t, e) ↦ ground (arith, e, b.contains-union i t (x.range_lookup key v))
  ]
  attr_lem key gt_op v s i h = elim (Option-cases (x.range_scan key v (type_max v))) [
    | inl e ↦ ground (arith, e)
    | inr (t, e) ↦ ground (arith, e, b.contains-difference i t (x.range_lookup key v))
  ]
  attr_lem key ge_op v s i h = elim (Option-cases (x.range_scan key v (type_max v))) [
    | inl e ↦ ground (arith, e)
    | inr (t, e) ↦ ground (arith, e, b.contains-union i t (x.range_lookup key v))
  ]
  attr_lem key prefix (text needle) s i h = ground (arith, scan_finds b x (has_prefix key needle) i)
  attr_lem key prefix v s i h = ground (arith, b.contains-empty i)
  attr_lem key contains v s i h = cc

  empty_list :
      (ss : List b.Set) (i : ℕ)
      → [] ≡ ss
      → (all_hold b i ss ≡ true) × (some_hold b i ss ≡ false) × (is_nil b x ss ≡ true)
  empty_list [] i h = (refl, refl, refl)
  empty_list (s ∷ ss) i h = cc

  longer :
      (t : b.Set) (ts ss : List b.Set) (i : ℕ) {p pa pn : Bool}
      → t ∷ ts ≡ ss
      → b.contains i t ≡ p
      → all_hold b i ts ≡ pa
      → some_hold b i ts ≡ pn
      → (all_hold b i ss ≡ (p && pa)) × (some_hold b i ss ≡ (p || pn)) × (is_nil b x ss ≡ false)
  longer t ts ss i h e al an = (
    sym (ap (all_hold b i) h) ∙ ap₂ ◌&&◌ e al,
    sym (ap (some_hold b i) h) ∙ ap₂ ◌||◌ e an,
    sym (ap (is_nil b x) h),
  )

  mutual
    unfolding evaluate evaluate_all matches matches_all matches_any

    evaluate_lem :
        (q : Query) (s : b.Set) (i : ℕ) → evaluate b x q ≡ value s → b.contains i s ≡ matches q i
    evaluate_lem (has_tag tag) s i h = sym (ap (b.contains i) (of_value h))
    evaluate_lem (has_attr key op v) s i h = attr_lem key op v s i h
    evaluate_lem (related predicate target) s i h =
        sym (ap (b.contains i) (of_value h)) ∙ related_finds b x predicate target i
    evaluate_lem (and_all qs) s i h =
        let (ss, e, f) = >>=-eq-value (evaluate_all b x qs) _ h in
        let (al, an, n) = evaluate_all_lem qs ss i e in
        sym (ap (b.contains i) (of_value f))
        ∙ contains-meet_sorted b x i ss
        ∙ ap₂ (λ u w. not u && w) n al
    evaluate_lem (or_any qs) s i h =
        let (ss, e, f) = >>=-eq-value (evaluate_all b x qs) _ h in
        let (al, an, n) = evaluate_all_lem qs ss i e in
        sym (ap (b.contains i) (of_value f)) ∙ join_finds b x i ss ∙ an
    evaluate_lem (not_in q) s i h =
        let (t, e, f) = >>=-eq-value (evaluate b x q) _ h in
        let found = evaluate_lem q t i e in
        sym (ap (b.contains i) (of_value f))
        ∙ b.contains-difference i (universe b x) t
        ∙ ap₂ (λ u w. u && not w) (universe_finds b x i) found
    evaluate_lem (is_a tag) s i h = sym (ap (b.contains i) (of_value h)) ∙ isa_finds b x tag i

    evaluate_all_lem :
        (qs : Queries) (ss : List b.Set) (i : ℕ)
        → evaluate_all b x qs ≡ value ss
        → (all_hold b i ss ≡ matches_all qs i)
          × (some_hold b i ss ≡ matches_any qs i)
          × (is_nil b x ss ≡ is_none qs)
    evaluate_all_lem no_queries ss i h = empty_list ss i (of_value h)
    evaluate_all_lem (query q qs) ss i h =
        let (t, e, f) = >>=-eq-value (evaluate b x q) _ h in
        let (ts, e', f') = >>=-eq-value (evaluate_all b x qs) _ f in
        let found = evaluate_lem q t i e in
        let (al, an, n) = evaluate_all_lem qs ts i e' in longer t ts ss i (of_value f') found al an

  pub contains-evaluate :
      (q : Query) (s : b.Set) (i : ℕ) → evaluate b x q ≡ value s → b.contains i s ≡ matches q i
  contains-evaluate q s i h = evaluate_lem q s i h
