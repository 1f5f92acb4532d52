-- ===== src/Index/RangeIndex/Ints.antt =====
-- A range index of `crates/index/src/range_index.rs` that is filled with integers.
use mimisbrunnr.Base.{
  ℕ, ◌≡◌, refl, ◌∙◌, Bool, false, not, ◌&&◌, ◌||◌, List, [], ◌∷◌, some, ◌==◌, arith,
}
use mimisbrunnr.Base.Int.{ℤ, compare_ℤ, ltb_ℤ, IsI64}
use mimisbrunnr.Base.OrdMap.{get}
use mimisbrunnr.Base.OrdMap.Laws.{Ascends, insert-Ascends}
use mimisbrunnr.Types.ObjectId.{TagId}
use mimisbrunnr.Types.Value.{int}
use mimisbrunnr.Index.Bitmap.{Bitmap}
use mimisbrunnr.Index.NormalisedKey.Order.{int_order}
use mimisbrunnr.Index.RangeIndex.KeyOrder.{Key, compare_key, key_ord}
use mimisbrunnr.Index.RangeIndex.Map.{
  key_of, within, RangeIndex, insert, lookup, range_scan, range, join,
}
use mimisbrunnr.Index.RangeIndex.Laws.{
  is_eq, hits, hits-insert, filed, filed-insert, scan_hits, contains-lookup, range_scan-some,
}

-- The objects with the integers that they have for one tag, the last filed first.
abbrev pub Filing : Type 0
Filing = List (ℕ × ℤ)

-- Some integer of the object passes the test.
abbrev pub has_int : (ℤ → Bool) → Filing → ℕ → Bool
has_int p [] i = false
has_int p ((o, x) ∷ l) i = (p x && i == o) || has_int p l i

abbrev pub AllI64 : Filing → Type 0
AllI64 [] = Unit {0}
AllI64 ((o, x) ∷ l) = IsI64 x × AllI64 l

compare_int :
    (tag : TagId) (x y : ℤ)
    → IsI64 x
    → IsI64 y
    → compare_key (key_of tag (int x)) (key_of tag (int y)) ≡ compare_ℤ x y
unfolding compare_key
compare_int tag x y h k = ground (arith, int_order x y h k)

pub has_int_ext :
    (p q : ℤ → Bool) (l : Filing) (i : ℕ)
    → AllI64 l
    → ((x : ℤ) → IsI64 x → p x ≡ q x)
    → has_int p l i ≡ has_int q l i
has_int_ext p q [] i h e = refl
has_int_ext p q ((o, x) ∷ l) i h e = ground (arith, e x h.0, has_int_ext p q l i h.1 e)

pub has_int_or :
    (p q : ℤ → Bool) (l : Filing) (i : ℕ)
    → (has_int p l i || has_int q l i) ≡ has_int (λ x. p x || q x) l i
has_int_or p q [] i = refl
has_int_or p q ((o, x) ∷ l) i = ground (arith, has_int_or p q l i)

abbrev pub eq_ℤ : ℤ → ℤ → Bool
eq_ℤ x v = is_eq (compare_ℤ x v)

module _ (b : Bitmap) (tag : TagId) where
  -- The inserts in turn, from the empty index.
  unfoldable pub index_of : Filing → RangeIndex b
  index_of [] = []
  index_of ((o, x) ∷ l) = insert b (index_of l) tag (int x) o

  pub index_of-Ascends : (l : Filing) → Ascends (index_of l)
  unfolding index_of insert
  index_of-Ascends [] = tt
  index_of-Ascends ((o, x) ∷ l) = insert-Ascends _ _ (index_of l) (index_of-Ascends l)

  hits-index_of :
      (q : Key → Bool) (l : Filing) (i : ℕ)
      → hits b q i (index_of l) ≡ has_int (λ x. q (key_of tag (int x))) l i
  unfolding index_of insert
  hits-index_of q [] i = unfold hits in refl
  hits-index_of q ((o, x) ∷ l) i = ground (
    arith,
    hits-insert b q i o (key_of tag (int x)) (index_of l) (index_of-Ascends l),
    hits-index_of q l i,
  )

  filed-index_of :
      (k : Key) (l : Filing) (i : ℕ)
      → filed b (index_of l) k i ≡ has_int (λ x. is_eq (compare_key k (key_of tag (int x)))) l i
  unfolding index_of
  filed-index_of k [] i = unfold filed get in b.contains-empty i
  filed-index_of k ((o, x) ∷ l) i =
      ground (arith, filed-insert b (index_of l) tag (int x) o k i, filed-index_of k l i)

  eq_flip : (x v : ℤ) → is_eq (compare_ℤ v x) ≡ eq_ℤ x v
  eq_flip x v = ground arith

  -- A lookup finds the objects that have exactly the integer.
  pub contains-lookup_int :
      (l : Filing) (v : ℤ) (i : ℕ)
      → AllI64 l
      → IsI64 v
      → b.contains i (lookup b (index_of l) tag (int v)) ≡ has_int (λ x. eq_ℤ x v) l i
  contains-lookup_int l v i h k =
      contains-lookup b (index_of l) tag (int v) i
      ∙ filed-index_of (key_of tag (int v)) l i
      ∙ has_int_ext _ _ l i h (λ x hx. ground (arith, compare_int tag v x k hx, eq_flip x v))

  within_int :
      (low high x : ℤ)
      → IsI64 low
      → IsI64 high
      → IsI64 x
      → within (key_of tag (int low)) (key_of tag (int high)) (key_of tag (int x))
        ≡ (not (ltb_ℤ x low) && ltb_ℤ x high)
  unfolding within
  within_int low high x kl kh hx =
      ground (arith, compare_int tag x low hx kl, compare_int tag x high hx kh)

  -- A scan from `low` up to below `high` does not panic if these are in order, and finds the objects that
  -- have an integer of that range.
  pub range_scan_int :
      (l : Filing) (low high : ℤ)
      → AllI64 l
      → IsI64 low
      → IsI64 high
      → ltb_ℤ high low ≡ false
      → (s : b.Set) × (range_scan b (index_of l) tag (int low) (int high) ≡ some s)
        × ((i : ℕ) → b.contains i s ≡ has_int (λ x. not (ltb_ℤ x low) && ltb_ℤ x high) l i)
  range_scan_int l low high h kl kh ordered =
      let e =
        range_scan-some b (index_of l) tag (int low) (int high)
          (ground (arith, compare_int tag low high kl kh, ordered)) in
      (
        join b b.empty (range b (key_of tag (int low)) (key_of tag (int high)) (index_of l)),
        e,
        λ i.
            scan_hits b (index_of l) tag (int low) (int high) _ i e
            ∙ hits-index_of (within (key_of tag (int low)) (key_of tag (int high))) l i
            ∙ has_int_ext _ _ l i h (λ x hx. within_int low high x kl kh hx),
      )
