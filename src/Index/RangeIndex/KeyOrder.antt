-- ===== src/Index/RangeIndex/KeyOrder.antt =====
-- The derived `Ord` of `(TagId, NormalisedKey)` in `crates/index/src/range_index.rs`.
use Prim.Native.Nat.Ordering.{lt, eq, gt}
use mimisbrunnr.Base.{ℕ, ◌≡◌, refl, compare, Ordering, List, [], ◌∷◌, arith}
use mimisbrunnr.Base.OrdMap.{Ord, then_with}
use mimisbrunnr.Index.NormalisedKey.{compare_bytes}
use mimisbrunnr.Index.NormalisedKey.Order.{compare_bytes_refl}

abbrev pub Key : Type 0
Key = ℕ × List ℕ

unfoldable pub compare_key : Key → Key → Ordering
compare_key (a, x) (b, y) = then_with (compare a b) (compare_bytes x y)

eq_of_bytes_cmp : (a b : List ℕ) → compare_bytes a b ≡ eq → a ≡ b
unfolding compare_bytes
eq_of_bytes_cmp [] [] h = refl
eq_of_bytes_cmp [] (y ∷ ys) h = ground (arith, h)
eq_of_bytes_cmp (x ∷ xs) [] h = ground (arith, h)
eq_of_bytes_cmp (x ∷ xs) (y ∷ ys) h = ground (arith, eq_of_bytes_cmp xs ys)

gt_of_lt_bytes : (a b : List ℕ) → compare_bytes a b ≡ lt → compare_bytes b a ≡ gt
unfolding compare_bytes
gt_of_lt_bytes [] [] h = ground (arith, h)
gt_of_lt_bytes [] (y ∷ ys) h = refl
gt_of_lt_bytes (x ∷ xs) [] h = ground (arith, h)
gt_of_lt_bytes (x ∷ xs) (y ∷ ys) h = ground (arith, gt_of_lt_bytes xs ys)

lt_of_gt_bytes : (a b : List ℕ) → compare_bytes a b ≡ gt → compare_bytes b a ≡ lt
unfolding compare_bytes
lt_of_gt_bytes [] [] h = ground (arith, h)
lt_of_gt_bytes [] (y ∷ ys) h = ground (arith, h)
lt_of_gt_bytes (x ∷ xs) [] h = refl
lt_of_gt_bytes (x ∷ xs) (y ∷ ys) h = ground (arith, lt_of_gt_bytes xs ys)

bytes_lt_trans :
    (a b c : List ℕ) → compare_bytes a b ≡ lt → compare_bytes b c ≡ lt → compare_bytes a c ≡ lt
unfolding compare_bytes
bytes_lt_trans [] (y ∷ ys) (z ∷ zs) h k = refl
bytes_lt_trans (x ∷ xs) (y ∷ ys) (z ∷ zs) h k = ground (arith, bytes_lt_trans xs ys zs)
bytes_lt_trans [] [] c h k = ground (arith, h)
bytes_lt_trans a (y ∷ ys) [] h k = ground (arith, k)
bytes_lt_trans (x ∷ xs) [] c h k = ground (arith, h)

pub key_cmp_refl : (a : Key) → compare_key a a ≡ eq
unfolding compare_key
key_cmp_refl (a, x) = ground (arith, compare_bytes_refl x)

pub eq_of_key_cmp : (a b : Key) → compare_key a b ≡ eq → a ≡ b
unfolding compare_key
eq_of_key_cmp (a, x) (b, y) h = ground (arith, eq_of_bytes_cmp x y)

pub key_gt_of_lt : (a b : Key) → compare_key a b ≡ lt → compare_key b a ≡ gt
unfolding compare_key
key_gt_of_lt (a, x) (b, y) h = ground (arith, gt_of_lt_bytes x y)

key_lt_of_gt : (a b : Key) → compare_key a b ≡ gt → compare_key b a ≡ lt
unfolding compare_key
key_lt_of_gt (a, x) (b, y) h = ground (arith, lt_of_gt_bytes x y)

key_lt_trans : (a b c : Key) → compare_key a b ≡ lt → compare_key b c ≡ lt → compare_key a c ≡ lt
unfolding compare_key
key_lt_trans (a, x) (b, y) (c, z) h k = ground (arith, bytes_lt_trans x y z)

instance unfoldable pub key_ord : Ord Key
unfolding compare_key eq_of_bytes_cmp gt_of_lt_bytes lt_of_gt_bytes bytes_lt_trans key_cmp_refl
    eq_of_key_cmp key_gt_of_lt key_lt_of_gt key_lt_trans
key_ord = record {
  cmp = compare_key;
  cmp_refl = key_cmp_refl;
  eq_of_cmp = eq_of_key_cmp;
  gt_of_lt = key_gt_of_lt;
  lt_of_gt = key_lt_of_gt;
  lt_trans = key_lt_trans;
}
