-- ===== src/Index/RangeIndex/Laws.antt =====
-- The range index of `crates/index/src/range_index.rs` as a set of tags, keys and objects.
use Prim.Native.Nat.Ordering.{lt, eq}
use mimisbrunnr.Base.{
  ℕ, ◌≡◌, refl, sym, ap, ◌∙◌, Ordering, Bool, true, false, not, ◌&&◌, ◌||◌, ◌⊎◌, ◌↔◌, [], ◌∷◌, none,
  some, if◌then◌else◌, ◌==◌, Bool-cases, Option-cases, inl, inr, arith,
}
use mimisbrunnr.Base.OrdMap
use mimisbrunnr.Base.OrdMap.{Ord, OrdMap, get}
use mimisbrunnr.Base.OrdMap.Laws.{Below, Ascends, Below-trans, get-Below, get-insert, get-remove}
use mimisbrunnr.Types.ObjectId.{TagId}
use mimisbrunnr.Types.Value.{Value}
use mimisbrunnr.Index.Bitmap.{Bitmap}
use mimisbrunnr.Index.RangeIndex.KeyOrder.{
  Key, compare_key, key_ord, key_cmp_refl, eq_of_key_cmp, key_gt_of_lt,
}
use mimisbrunnr.Index.RangeIndex.Map.{
  is_gt, key_of, within, RangeIndex, or_empty, insert, with_set, remove, lookup, range, join,
  range_scan,
}

abbrev pub is_eq : Ordering → Bool
is_eq eq = true
is_eq _ = false

module _ (b : Bitmap) where
  -- The object is filed at some key that passes the test.
  unfoldable pub hits : (Key → Bool) → ℕ → RangeIndex b → Bool
  hits q i [] = false
  hits q i ((k, s) ∷ m) = (q k && b.contains i s) || hits q i m

  contains-join :
      (i : ℕ) (acc : b.Set) (low high : Key) (m : RangeIndex b)
      → b.contains i (join b acc (range b low high m))
        ≡ (b.contains i acc || hits (within low high) i m)
  unfolding join range hits
  contains-join i acc low high [] = ground arith
  contains-join i acc low high ((k, s) ∷ m) = ground (
    arith,
    contains-join i acc low high m,
    contains-join i (b.union acc s) low high m,
    b.contains-union i acc s,
  )

  pub hits-insert :
      (q : Key → Bool) (i o : ℕ) (k : Key) (m : RangeIndex b)
      → Ascends m
      → hits q i (OrdMap.insert k (b.insert o (or_empty b (get k m))) m)
        ≡ (hits q i m || (q k && i == o))
  unfolding hits OrdMap.insert get
  hits-insert q i o k [] a = ground (arith, b.contains-insert i o b.empty, b.contains-empty i)
  hits-insert q i o k ((k', s) ∷ m) a = ground (
    arith,
    hits-insert q i o k m a.1,
    b.contains-insert i o s,
    b.contains-insert i o b.empty,
    b.contains-empty i,
    get-Below k m,
    Below-trans k k' m,
    key_ord.eq_of_cmp k k',
  )

  -- Filed under exactly the key.
  unfoldable pub filed : RangeIndex b → Key → ℕ → Bool
  filed m k i = b.contains i (or_empty b (get k m))

  -- A lookup gives the objects that are filed under exactly the key.
  pub contains-lookup :
      (m : RangeIndex b) (tag : TagId) (value : Value) (i : ℕ)
      → b.contains i (lookup b m tag value) ≡ filed m (key_of tag value) i
  unfolding lookup filed
  contains-lookup m tag value i = refl

  -- A scan whose bounds are in order does not panic.
  pub range_scan-some :
      (m : RangeIndex b) (tag : TagId) (low high : Value)
      → is_gt (compare_key (key_of tag low) (key_of tag high)) ≡ false
      → range_scan b m tag low high
        ≡ some (join b b.empty (range b (key_of tag low) (key_of tag high) m))
  unfolding range_scan
  range_scan-some m tag low high h = rw h refl

  -- One whose bounds are not panics.
  pub range_scan-none :
      (m : RangeIndex b) (tag : TagId) (low high : Value)
      → is_gt (compare_key (key_of tag low) (key_of tag high)) ≡ true
      → range_scan b m tag low high ≡ none
  unfolding range_scan
  range_scan-none m tag low high h = rw h refl

  filed-insert_key :
      (m : RangeIndex b) (k j : Key) (i o : ℕ)
      → filed (OrdMap.insert k (b.insert o (or_empty b (get k m))) m) j i
        ≡ (filed m j i || (is_eq (compare_key j k) && i == o))
  unfolding filed key_ord
  filed-insert_key m k j i o = ground (
    arith,
    get-insert j k (b.insert o (or_empty b (get k m))) m,
    eq_of_key_cmp j k,
    b.contains-insert i o (or_empty b (get k m)),
  )

  -- After an insert, an object is filed where it was, and the new one at its key.
  pub filed-insert :
      (m : RangeIndex b) (tag : TagId) (value : Value) (o : ℕ) (j : Key) (i : ℕ)
      → filed (insert b m tag value o) j i
        ≡ (filed m j i || (is_eq (compare_key j (key_of tag value)) && i == o))
  unfolding insert
  filed-insert m tag value o j i = filed-insert_key m (key_of tag value) j i o

  eq_of_is_eq : (j k : Key) → is_eq (compare_key j k) ≡ true → j ≡ k
  eq_of_is_eq j k h = eq_of_key_cmp j k (ground (arith, h))

  filed-with_set :
      (m : RangeIndex b) (k : Key) (s : b.Set) (j : Key) (i : ℕ)
      → Ascends m
      → filed (with_set b m k s) j i
        ≡ (if is_eq (compare_key j k) then b.contains i s else filed m j i)
  unfolding filed with_set key_ord
  filed-with_set m k s j i a =
      ground
        (arith, get-insert j k s m, get-remove j k m a, b.contains-is_empty i s, b.contains-empty i)

  filed-found :
      (m : RangeIndex b) (k : Key) (s : b.Set) (i : ℕ)
      → get k m ≡ some s
      → filed m k i ≡ b.contains i s
  unfolding filed
  filed-found m k s i e = rw (e, filed) refl

  filed-missing : (m : RangeIndex b) (k : Key) (i : ℕ) → get k m ≡ none → filed m k i ≡ false
  unfolding filed
  filed-missing m k i e = rw (e, filed) (b.contains-empty i)

  removed :
      (m : RangeIndex b) (k : Key) (s : b.Set) (o : ℕ) (j : Key) (i : ℕ)
      → Ascends m
      → get k m ≡ some s
      → filed (with_set b m k (b.remove o s)) j i
        ≡ (filed m j i && not (is_eq (compare_key j k) && i == o))
  removed m k s o j i a e = elim (Bool-cases (is_eq (compare_key j k))) [
    | inl same ↦
        let f : filed m j i ≡ b.contains i s =
          ap (λ x. filed m x i) (eq_of_is_eq j k same) ∙ filed-found m k s i e in
        ground (arith, filed-with_set m k (b.remove o s) j i a, b.contains-remove i o s, f)
    | inr other ↦ ground (arith, filed-with_set m k (b.remove o s) j i a)
  ]

  kept :
      (m : RangeIndex b) (k j : Key) (i o : ℕ)
      → get k m ≡ none
      → filed m j i ≡ (filed m j i && not (is_eq (compare_key j k) && i == o))
  kept m k j i o e = elim (Bool-cases (is_eq (compare_key j k))) [
    | inl same ↦
        let f : filed m j i ≡ false =
          ap (λ x. filed m x i) (eq_of_is_eq j k same) ∙ filed-missing m k i e in
        ground (arith, f)
    | inr other ↦ ground (arith, other)
  ]

  remove_none :
      (m : RangeIndex b) (tag : TagId) (value : Value) (o : ℕ)
      → get (key_of tag value) m ≡ none
      → remove b m tag value o ≡ (m, false)
  unfolding remove
  remove_none m tag value o e = ground (arith, e)

  remove_some :
      (m : RangeIndex b) (tag : TagId) (value : Value) (o : ℕ) (s : b.Set)
      → get (key_of tag value) m ≡ some s
      → remove b m tag value o ≡ (with_set b m (key_of tag value) (b.remove o s), b.contains o s)
  unfolding remove
  remove_some m tag value o s e = ground (arith, e)

  -- On an index in key order, after a remove an object is filed where it was, but for the removed
  -- one at its key; the result says whether that was filed there.
  pub filed-remove :
      (m : RangeIndex b) (tag : TagId) (value : Value) (o : ℕ) (j : Key) (i : ℕ)
      → Ascends m
      → (filed (remove b m tag value o).0 j i
          ≡ (filed m j i && not (is_eq (compare_key j (key_of tag value)) && i == o)))
        × ((remove b m tag value o).1 ≡ filed m (key_of tag value) o)
  filed-remove m tag value o j i a = elim (Option-cases (get (key_of tag value) m)) [
    | inl e ↦
        rw (remove_none m tag value o e)
          (kept m (key_of tag value) j i o e, sym (filed-missing m (key_of tag value) o e))
    | inr (s, e) ↦
        rw (remove_some m tag value o s e)
          (removed m (key_of tag value) s o j i a e, sym (filed-found m (key_of tag value) s o e))
  ]

  Below-get :
      (q k : Key) (s : b.Set) (m : RangeIndex b)
      → Below q m
      → get k m ≡ some s
      → compare_key q k ≡ lt
  unfolding get key_ord
  Below-get q k s [] h e = cc
  Below-get q k s ((k', t) ∷ m) h e = ground (arith, Below-get q k s m h.1, eq_of_key_cmp k k')

  some_of_filed :
      (m : RangeIndex b) (k : Key) (i : ℕ) → filed m k i ≡ true → (s : b.Set) × (get k m ≡ some s)
  unfolding filed
  some_of_filed m k i h = elim (Option-cases (get k m)) [
    | inl e ↦ absurd (ground (arith, b.contains-empty i))
    | inr (s, e) ↦ (s, e)
  ]

  hits_sound :
      (q : Key → Bool) (i : ℕ) (m : RangeIndex b)
      → Ascends m
      → hits q i m ≡ true
      → (k : Key) × (q k ≡ true) × (filed m k i ≡ true)
  unfolding hits filed get key_ord
  hits_sound q i [] a h = cc
  hits_sound q i ((k, s) ∷ m) a h = elim (Bool-cases (q k && b.contains i s)) [
    | inl here ↦ (k, ground arith, ground (arith, key_cmp_refl k))
    | inr there ↦
        let (k', ok, f) = hits_sound q i m a.1 (ground arith) in
        let (t, e) = some_of_filed m k' i f in
        (k', ok, ground (arith, Below-get k k' t m a.0 e, key_gt_of_lt k k'))
  ]

  get-cons :
      (k k' : Key) (s : b.Set) (m : RangeIndex b)
      → ((k ≡ k') × (get k ((k', s) ∷ m) ≡ some s)) ⊎ (get k ((k', s) ∷ m) ≡ get k m)
  unfolding get key_ord
  get-cons k k' s m = elim (Bool-cases (is_eq (compare_key k k'))) [
    | inl same ↦ inl (eq_of_is_eq k k' same, ground arith)
    | inr other ↦ inr (ground arith)
  ]

  hits_complete :
      (q : Key → Bool) (i : ℕ) (m : RangeIndex b) (k : Key)
      → q k ≡ true
      → filed m k i ≡ true
      → hits q i m ≡ true
  unfolding hits filed
  hits_complete q i [] k h f = unfold get in ground (arith, b.contains-empty i)
  hits_complete q i ((k', s) ∷ m) k h f0 = elim (get-cons k k' s m) [
    | inl (same, found) ↦
        let f : b.contains i s ≡ true = sym (filed-found ((k', s) ∷ m) k s i found) ∙ f0 in
        let p : q k' ≡ true = ap q (sym same) ∙ h in ground (arith, f, p)
    | inr later ↦
        let g : filed m k i ≡ true = sym (ap (λ x. b.contains i (or_empty b x)) later) ∙ f0 in
        ground (arith, hits_complete q i m k h g)
  ]

  pub scan_hits :
      (m : RangeIndex b) (tag : TagId) (low high : Value) (s : b.Set) (i : ℕ)
      → range_scan b m tag low high ≡ some s
      → b.contains i s ≡ hits (within (key_of tag low) (key_of tag high)) i m
  unfolding range_scan
  scan_hits m tag low high s i h =
      ground
        (arith, contains-join i b.empty (key_of tag low) (key_of tag high) m, b.contains-empty i)

  -- On an index in key order, a scan of low ≤ key < high that returns finds exactly the objects
  -- that are filed at a key of that range.
  pub range_scan_lem :
      (m : RangeIndex b) (tag : TagId) (low high : Value) (s : b.Set) (i : ℕ)
      → Ascends m
      → range_scan b m tag low high ≡ some s
      → (b.contains i s ≡ true)
        ↔ ((k : Key) × (within (key_of tag low) (key_of tag high) k ≡ true) × (filed m k i ≡ true))
  range_scan_lem m tag low high s i a h =
      let found = scan_hits m tag low high s i h in
      (
        (λ c. hits_sound (within (key_of tag low) (key_of tag high)) i m a (sym found ∙ c)),
        (λ (k, w, f). found ∙ hits_complete (within (key_of tag low) (key_of tag high)) i m k w f),
      )
