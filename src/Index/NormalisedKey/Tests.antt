-- ===== src/Index/NormalisedKey/Tests.antt =====
-- Keys of `crates/index/src/normalised_key.rs` at concrete values.
use Prim.Native.Nat.Ordering.{gt}
use mimisbrunnr.Base.{ℕ, ◌≡◌, refl, List, [], ◌∷◌, arith}
use mimisbrunnr.Types.Value.{float}
use mimisbrunnr.Index.NormalisedKey.{from_value, compare_bytes, copied}
use mimisbrunnr.Index.NormalisedKey.Order.{float_order, compare_floats}

-- The bits of -2.0 and of 1.5.
float_order_example :
    compare_bytes (from_value (float 13835058055282163712)) (from_value (float 4609434218613702656))
    ≡ compare_floats 13835058055282163712 4609434218613702656
float_order_example =
    float_order 13835058055282163712 4609434218613702656 (omega arith) (omega arith)

abbrev ab : List ℕ
ab = 97 ∷ 98 ∷ []

abbrev abc : List ℕ
abc = 97 ∷ 98 ∷ 99 ∷ []

-- Thirteen times `a`, then `b`, and fifteen times `a`.
abbrev tail_b : List ℕ
tail_b = 97 ∷ 97 ∷ 97 ∷ 97 ∷ 97 ∷ 97 ∷ 97 ∷ 97 ∷ 97 ∷ 97 ∷ 97 ∷ 97 ∷ 97 ∷ 98 ∷ []

abbrev all_a : List ℕ
all_a = 97 ∷ 97 ∷ 97 ∷ 97 ∷ 97 ∷ 97 ∷ 97 ∷ 97 ∷ 97 ∷ 97 ∷ 97 ∷ 97 ∷ 97 ∷ 97 ∷ 97 ∷ []

same_start : copied 13 tail_b ≡ copied 13 all_a
unfolding copied
same_start = refl

-- The first is after the second, but its key is before.
values_descend : compare_bytes tail_b all_a ≡ gt
unfolding compare_bytes
values_descend = refl
