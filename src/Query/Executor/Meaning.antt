-- ===== src/Query/Executor/Meaning.antt =====
-- What a query of `crates/types/src/query.rs` asks of one object, and that `evaluate` of
-- `crates/query/src/executor.rs` finds just the objects that meet it.
use mimisbrunnr.Base.{ℕ, ◌≡◌, refl, ap, ap₂, ◌∙◌, Bool, true, false, not, ◌&&◌, ◌||◌}
use mimisbrunnr.Base.Int.{ltb_ℤ, IsI64}
use mimisbrunnr.Types.ObjectId.{TagId}
use mimisbrunnr.Types.Value.{Value, text, int}
use mimisbrunnr.Types.Query.{
  CmpOp, eq_op, ne_op, lt_op, le_op, gt_op, ge_op, prefix, contains, Query, Queries, has_tag,
  has_attr, related, and_all, or_any, not_in, is_a, no_queries, query,
}
use mimisbrunnr.Index.Bitmap.{Bitmap}
use mimisbrunnr.Index.RangeIndex.Ints.{Filing, has_int, eq_ℤ}
use mimisbrunnr.Query.Executor.{value, Indexes, is_related, has_key, has_prefix, evaluate}
use mimisbrunnr.Query.Executor.Sets.{tagged_of}
use mimisbrunnr.Query.Executor.Matches.{
  scan_holds, attr_matches, matches, matches_all, matches_any, is_none, contains-evaluate,
}
use mimisbrunnr.Query.Executor.Total.{is_scanned, attr_answers, answers, all_answer, evaluate-value}
use mimisbrunnr.Query.Executor.Integers.{
  Keeps, below_lem, above_lem, below_or, above_or, strictly_above,
}
use mimisbrunnr.Query.Executor.Leaves.{
  names_key, begins, relates, asserts, has_prefix_lem, has_key_lem, is_related_lem,
  stated_of-asserts, stored, stored_below, AreDistinct, has_tag-stored, distinct_found,
  isa_of-stored,
}

module _ (b : Bitmap) (x : Indexes b) (ints : TagId → Filing) where
  -- The integers that an object has for the key, against the one that is compared. An object that has that
  -- one does not pass `>`, whatever else it has.
  abbrev pub attr_means : TagId → CmpOp → Value → ℕ → Bool
  attr_means key eq_op v i = b.contains i (x.kv_lookup key v)
  attr_means key ne_op v i =
      asserts (names_key key) i x.objects && not (b.contains i (x.kv_lookup key v))
  attr_means key prefix (text needle) i = asserts (begins key needle) i x.objects
  attr_means key lt_op (int v) i = has_int (λ y. ltb_ℤ y v) (ints key) i
  attr_means key le_op (int v) i = has_int (λ y. not (ltb_ℤ v y)) (ints key) i
  attr_means key gt_op (int v) i =
      has_int (λ y. ltb_ℤ v y) (ints key) i && not (has_int (λ y. eq_ℤ y v) (ints key) i)
  attr_means key ge_op (int v) i = has_int (λ y. not (ltb_ℤ y v)) (ints key) i
  attr_means key _ v i = false

  unfoldable mutual
    pub means : Query → ℕ → Bool
    means (has_tag tag) i = stored b x tag i x.stores
    means (has_attr key op v) i = attr_means key op v i
    means (related predicate target) i = asserts (relates predicate target) i x.objects
    means (and_all qs) i = not (is_none b x qs) && all_mean qs i
    means (or_any qs) i = any_means qs i
    means (not_in q) i = tagged_of b x i x.stores && not (means q i)
    means (is_a tag) i = stored_below b x tag i x.stores

    pub all_mean : Queries → ℕ → Bool
    all_mean no_queries i = true
    all_mean (query q qs) i = means q i && all_mean qs i

    pub any_means : Queries → ℕ → Bool
    any_means no_queries i = false
    any_means (query q qs) i = means q i || any_means qs i

  -- The comparison is with an integer, and the key's integers are filed.
  abbrev pub IsInt : TagId → Value → Type 0
  IsInt key (int v) = IsI64 v × Keeps b x key (ints key)
  IsInt key _ = ⊥

  abbrev pub AttrIsAnswerable : TagId → CmpOp → Value → Type 0
  AttrIsAnswerable key lt_op v = IsInt key v
  AttrIsAnswerable key le_op v = IsInt key v
  AttrIsAnswerable key gt_op v = IsInt key v
  AttrIsAnswerable key ge_op v = IsInt key v
  AttrIsAnswerable key contains v = ⊥
  AttrIsAnswerable key op v = Unit {0}

  -- No substring search, and comparisons by order with integers only.
  unfoldable mutual
    pub IsAnswerable : Query → Type 0
    IsAnswerable (has_attr key op v) = AttrIsAnswerable key op v
    IsAnswerable (and_all qs) = AreAnswerable qs
    IsAnswerable (or_any qs) = AreAnswerable qs
    IsAnswerable (not_in q) = IsAnswerable q
    IsAnswerable _ = Unit {0}

    pub AreAnswerable : Queries → Type 0
    AreAnswerable no_queries = Unit {0}
    AreAnswerable (query q qs) = IsAnswerable q × AreAnswerable qs

  attr_lem :
      (key : TagId) (op : CmpOp) (v : Value)
      → AttrIsAnswerable key op v
      → (attr_answers b x key op v ≡ true)
        × ((i : ℕ) → attr_matches b x key op v i ≡ attr_means key op v i)
  attr_lem key eq_op v h = (refl, λ i. refl)
  attr_lem key ne_op v h = (
    refl,
    λ i.
        ap (λ t. t && not (b.contains i (x.kv_lookup key v)))
          (stated_of-asserts (has_key key) (names_key key) i (has_key_lem key) x.objects),
  )
  attr_lem key prefix (text needle) h = (
    refl,
    λ i.
        stated_of-asserts (has_prefix key needle) (begins key needle) i (has_prefix_lem key needle)
          x.objects,
  )
  attr_lem key prefix _ h = (refl, λ i. refl)
  attr_lem key lt_op (int v) h =
      let (s, e, f) = below_lem b x key (ints key) v h.0 h.1 in
      (ap (is_scanned b x) e, λ i. ap (λ o. scan_holds b x o i) e ∙ f i)
  attr_lem key le_op (int v) h =
      let (s, e, f) = below_lem b x key (ints key) v h.0 h.1 in
      (
        ap (is_scanned b x) e,
        λ i.
            ap₂ ◌||◌ (ap (λ o. scan_holds b x o i) e ∙ f i) (h.1.looked_up v i h.0)
            ∙ below_or b x key (ints key) v i h.1,
      )
  attr_lem key gt_op (int v) h =
      let (s, e, f) = above_lem b x key (ints key) v h.0 h.1 in
      (
        ap (is_scanned b x) e,
        λ i.
            ap₂ (λ t u. t && not u) (ap (λ o. scan_holds b x o i) e ∙ f i) (h.1.looked_up v i h.0)
            ∙ strictly_above b x key (ints key) v i h.1,
      )
  attr_lem key ge_op (int v) h =
      let (s, e, f) = above_lem b x key (ints key) v h.0 h.1 in
      (
        ap (is_scanned b x) e,
        λ i.
            ap₂ ◌||◌ (ap (λ o. scan_holds b x o i) e ∙ f i) (h.1.looked_up v i h.0)
            ∙ above_or b x key (ints key) v i h.1,
      )
  attr_lem key lt_op _ h = elim h [ ]
  attr_lem key le_op _ h = elim h [ ]
  attr_lem key gt_op _ h = elim h [ ]
  attr_lem key ge_op _ h = elim h [ ]
  attr_lem key contains v h = elim h [ ]

  mutual
    unfolding IsAnswerable AreAnswerable answers all_answer

    answerable : (q : Query) → IsAnswerable q → answers b x q ≡ true
    answerable (has_tag tag) h = refl
    answerable (has_attr key op v) h = (attr_lem key op v h).0
    answerable (related predicate target) h = refl
    answerable (and_all qs) h = all_answerable qs h
    answerable (or_any qs) h = all_answerable qs h
    answerable (not_in q) h = answerable q h
    answerable (is_a tag) h = refl

    all_answerable : (qs : Queries) → AreAnswerable qs → all_answer b x qs ≡ true
    all_answerable no_queries h = refl
    all_answerable (query q qs) h = ap₂ ◌&&◌ (answerable q h.0) (all_answerable qs h.1)

  module _ (distinct : AreDistinct b x x.stores) where
    mutual
      unfolding IsAnswerable AreAnswerable matches matches_all matches_any means all_mean any_means

      matches-means : (q : Query) (i : ℕ) → IsAnswerable q → matches b x q i ≡ means q i
      matches-means (has_tag tag) i h = has_tag-stored b x tag i x.stores distinct
      matches-means (has_attr key op v) i h = (attr_lem key op v h).1 i
      matches-means (related predicate target) i h =
          stated_of-asserts (is_related predicate target) (relates predicate target) i
            (is_related_lem predicate target) x.objects
      matches-means (and_all qs) i h = ap (λ t. not (is_none b x qs) && t) (all-mean qs i h).0
      matches-means (or_any qs) i h = (all-mean qs i h).1
      matches-means (not_in q) i h =
          ap (λ t. tagged_of b x i x.stores && not t) (matches-means q i h)
      matches-means (is_a tag) i h =
          isa_of-stored b x tag i x.stores (distinct_found b x x.stores distinct)

      all-mean :
          (qs : Queries) (i : ℕ)
          → AreAnswerable qs
          → (matches_all b x qs i ≡ all_mean qs i) × (matches_any b x qs i ≡ any_means qs i)
      all-mean no_queries i h = (refl, refl)
      all-mean (query q qs) i h =
          let e = matches-means q i h.0 in
          let (f, g) = all-mean qs i h.1 in (ap₂ ◌&&◌ e f, ap₂ ◌||◌ e g)

  -- Where no tag has two stores, an answerable query, that is one without a substring search,
  -- whose comparisons by order (<, <=, > and >=) are all with i64 integers over a range index
  -- that answers as one filled with integers below i64::MAX, has a result, which holds just the
  -- objects that the query means. For one object: a tag means that the store of the tag has it,
  -- isa that the store of some tag with the given one in its closure has it; an attribute equal
  -- to a value is what the key-value index answers, and different from it is to state the key and
  -- not to be in that answer; a prefix and a relation mean that the forward index has, under its
  -- local sequence of 32 bits, such an assertion; <, <= and >= mean that some integer of the
  -- object compares so, > that one is above and none is equal; a conjunction means that it has a
  -- part and all its parts do, a disjunction that some part does, a negation that the object has
  -- a tag and the part does not mean it.
  pub evaluate-means :
      AreDistinct b x x.stores
      → (q : Query) → IsAnswerable q
      → (s : b.Set) × (evaluate b x q ≡ value s) × ((i : ℕ) → b.contains i s ≡ means q i)
  evaluate-means distinct q h =
      let (s, e) = evaluate-value b x q (answerable q h) in
      (s, e, λ i. contains-evaluate b x q s i e ∙ matches-means distinct q i h)
