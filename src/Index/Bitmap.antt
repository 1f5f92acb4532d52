-- ===== src/Index/Bitmap.antt =====
-- `RoaringBitmap` of the crate `roaring`, a set of u32 numbers, as the operations that the indexes and the
-- query executor call, with the behaviour that they rely on.
use mimisbrunnr.Base.{
  ℕ, ◌≡◌, refl, Bool, true, false, not, ◌&&◌, ◌||◌, List, [], ◌∷◌, ◌++◌, length, keep, elem,
  elem-append, ◌==◌, ==_iff, ==_refl, Bool-cases, inl, inr, arith,
}

pub record Bitmap : Type 1 where
  pub Set : Type 0
  pub empty : Set
  pub insert : ℕ → Set → Set
  pub remove : ℕ → Set → Set
  pub union : Set → Set → Set
  pub intersect : Set → Set → Set
  pub difference : Set → Set → Set
  pub contains : ℕ → Set → Bool
  pub len : Set → ℕ
  pub is_empty : Set → Bool
  pub iter : Set → List ℕ
  pub contains-empty : (i : ℕ) → contains i empty ≡ false
  pub contains-insert : (i j : ℕ) (s : Set) → contains i (insert j s) ≡ (i == j || contains i s)
  pub contains-remove :
      (i j : ℕ) (s : Set) → contains i (remove j s) ≡ (contains i s && not (i == j))
  pub contains-union : (i : ℕ) (s t : Set) → contains i (union s t) ≡ (contains i s || contains i t)
  pub contains-intersect :
      (i : ℕ) (s t : Set) → contains i (intersect s t) ≡ (contains i s && contains i t)
  pub contains-difference :
      (i : ℕ) (s t : Set) → contains i (difference s t) ≡ (contains i s && not (contains i t))
  pub elem-iter : (i : ℕ) (s : Set) → elem i (iter s) ≡ contains i s
  pub contains-is_empty : (i : ℕ) (s : Set) → is_empty s ≡ true → contains i s ≡ false

-- Lists of numbers meet the interface.
elem-none : (i : ℕ) (s : List ℕ) → (length s == 0) ≡ true → elem i s ≡ false
unfolding elem
elem-none i [] h = refl
elem-none i (j ∷ s) h = ground arith

elem-keep : (i : ℕ) (p : ℕ → Bool) (s : List ℕ) → elem i (keep p s) ≡ (elem i s && p i)
unfolding elem keep
elem-keep i p [] = refl
elem-keep i p (k ∷ s) = elim (Bool-cases (i == k)) [
  | inl same ↦
      let e : i ≡ k = (==_iff i k).0 same in
      rw e (elim (Bool-cases (p k)) [
        | inl h ↦ rw h (ground (arith, ==_refl k))
        | inr h ↦ rw h (ground (arith, rw (e, h) at (elem-keep i p s)))
      ])
  | inr other ↦ ground (arith, elem-keep i p s)
]

unfoldable pub list_bitmap : Bitmap
unfolding elem elem-keep elem-none
list_bitmap = record {
  Set = List ℕ;
  empty = [];
  insert = λ i s. i ∷ s;
  remove = λ i s. keep (λ k. not (k == i)) s;
  union = λ s t. s ++ t;
  intersect = λ s t. keep (λ k. elem k t) s;
  difference = λ s t. keep (λ k. not (elem k t)) s;
  contains = elem;
  len = λ s. length s;
  is_empty = λ s. length s == 0;
  iter = λ s. s;
  contains-empty = λ i. refl;
  contains-insert = λ i j s. refl;
  contains-remove = λ i j s. elem-keep i (λ k. not (k == j)) s;
  contains-union = elem-append;
  contains-intersect = λ i s t. elem-keep i (λ k. elem k t) s;
  contains-difference = λ i s t. elem-keep i (λ k. not (elem k t)) s;
  elem-iter = λ i s. refl;
  contains-is_empty = elem-none;
}

unfoldable pub set_of : List ℕ → list_bitmap.Set
unfolding list_bitmap
set_of s = s
