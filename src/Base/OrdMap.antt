-- ===== src/Base/OrdMap.antt =====
-- `std::collections::BTreeMap`: an association list in key order, over a key type with `Ord`.
pub mod Laws
use Prim.Native.Nat.{ℕ, zero, suc, compare, Ordering}
use Prim.Native.Nat.Ordering.{lt, eq, gt}
use mathlib.Core.Path.{◌≡◌}
use mathlib.Core.Option.{Option, none, some}
use mathlib.Core.List.{List, [], ◌∷◌}
use native.Mathlib.Omega.{arith}

-- The trait `Ord`: `cmp` with the laws of a total order.
pub record Ord {ℓ} (K : Type ℓ) : Type ℓ where
  pub cmp : K → K → Ordering
  pub cmp_refl : (a : K) → cmp a a ≡ eq
  pub eq_of_cmp : (a b : K) → cmp a b ≡ eq → a ≡ b
  pub gt_of_lt : (a b : K) → cmp a b ≡ lt → cmp b a ≡ gt
  pub lt_of_gt : (a b : K) → cmp a b ≡ gt → cmp b a ≡ lt
  pub lt_trans : (a b c : K) → cmp a b ≡ lt → cmp b c ≡ lt → cmp a c ≡ lt

nat_cmp_refl : (a : ℕ) → compare a a ≡ eq
nat_cmp_refl a = ground arith

nat_eq_of_cmp : (a b : ℕ) → compare a b ≡ eq → a ≡ b
nat_eq_of_cmp a b = ground arith

nat_gt_of_lt : (a b : ℕ) → compare a b ≡ lt → compare b a ≡ gt
nat_gt_of_lt a b = ground arith

nat_lt_of_gt : (a b : ℕ) → compare a b ≡ gt → compare b a ≡ lt
nat_lt_of_gt a b = ground arith

nat_lt_trans : (a b c : ℕ) → compare a b ≡ lt → compare b c ≡ lt → compare a c ≡ lt
nat_lt_trans a b c = ground arith

instance unfoldable pub nat_ord : Ord ℕ
unfolding nat_cmp_refl nat_eq_of_cmp nat_gt_of_lt nat_lt_of_gt nat_lt_trans
nat_ord = record {
  cmp = compare;
  cmp_refl = nat_cmp_refl;
  eq_of_cmp = nat_eq_of_cmp;
  gt_of_lt = nat_gt_of_lt;
  lt_of_gt = nat_lt_of_gt;
  lt_trans = nat_lt_trans;
}

-- `Ordering::then`
abbrev pub then_with : Ordering → Ordering → Ordering
then_with eq second = second
then_with first _ = first

abbrev pub OrdMap {ℓ κ} : Type ℓ → Type κ → Type (ℓ ⊔ κ)
OrdMap K V = List (K × V)

module _ {ℓ κ} {K : Type ℓ} {V : Type κ} ⦃o : Ord K⦄ where
  -- `BTreeMap::get`
  unfoldable pub get : K → OrdMap K V → Option V
  get q [] = none
  get q ((k, v) ∷ m) = elim (o.cmp q k) [ eq ↦ some v | _ ↦ get q m ]

  -- `BTreeMap::insert`, which overwrites.
  unfoldable pub insert : K → V → OrdMap K V → OrdMap K V
  insert q w [] = (q, w) ∷ []
  insert q w ((k, v) ∷ m) = elim (o.cmp q k) [
    | lt ↦ (q, w) ∷ (k, v) ∷ m
    | eq ↦ (q, w) ∷ m
    | gt ↦ (k, v) ∷ insert q w m
  ]

  -- `BTreeMap::remove`
  unfoldable pub remove : K → OrdMap K V → OrdMap K V
  remove q [] = []
  remove q ((k, v) ∷ m) = elim (o.cmp q k) [ eq ↦ m | _ ↦ (k, v) ∷ remove q m ]

-- `BTreeMap::len`
unfoldable pub len {ℓ κ} : {K : Type ℓ} {V : Type κ} → OrdMap K V → ℕ
len [] = 0
len (_ ∷ m) = suc (len m)
