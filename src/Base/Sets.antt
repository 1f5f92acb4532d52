-- ===== src/Base/Sets.antt =====
-- Lists of native numbers as sets, and how many of the numbers below a bound such a set leaves out.
use Prim.Native.Nat.{ℕ, zero, suc, ◌+◌, ◌<◌, ◌≤◌}
use mathlib.Core.Path.{◌≡◌, refl, ◌∙◌, ap}
use mathlib.Core.Bool.{Bool, false, ◌||◌}
use mathlib.Core.Logic.{inl, inr}
use mathlib.Core.List.{List, [], ◌∷◌, ◌++◌}
use native.Mathlib.Omega.{arith}
use mimisbrunnr.Base.Tests.{◌==◌, ==_iff, Bool-cases, if◌then◌else◌}

unfoldable pub elem : ℕ → List ℕ → Bool
elem i [] = false
elem i (j ∷ s) = i == j || elem i s

pub elem-append : (i : ℕ) (s t : List ℕ) → elem i (s ++ t) ≡ (elem i s || elem i t)
unfolding elem
elem-append i [] t = refl
elem-append i (j ∷ s) t = ground (arith, elem-append i s t)

-- The numbers below `n` that the set leaves out.
unfoldable pub left_out : ℕ → List ℕ → ℕ
left_out zero s = 0
left_out (suc n) s = (if elem n s then 0 else 1) + left_out n s

pub left_out_nil : (n : ℕ) → left_out n [] ≡ n
unfolding left_out elem
left_out_nil zero = refl
left_out_nil (suc n) = omega (arith, left_out_nil n)

left_out_above : (n i : ℕ) (s : List ℕ) → n ≤ i → left_out n (i ∷ s) ≡ left_out n s
unfolding left_out elem
left_out_above zero i s h = refl
left_out_above (suc n) i s h = ground (arith, left_out_above n i s)

-- Taking in a new one leaves out one less.
pub left_out_cons :
    (n i : ℕ) (s : List ℕ) → i < n → elem i s ≡ false → left_out n (i ∷ s) + 1 ≡ left_out n s
unfolding left_out elem
left_out_cons zero i s h k = absurd (omega arith)
left_out_cons (suc n) i s h k = elim (Bool-cases (n == i)) [
  | inl same ↦
      let e : n ≡ i = (==_iff n i).0 same in
      let out : elem n s ≡ false = ap (λ x. elem x s) e ∙ k in
      ground (arith, out, left_out_above n i s)
  | inr other ↦ ground (arith, left_out_cons n i s)
]
