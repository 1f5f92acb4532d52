-- ===== src/Base/Bytes.antt =====
-- Little-endian byte images of machine words, as `#[repr(C, packed)]` structs and `to_le_bytes` lay
-- them out.
use native.Mathlib.Nat.{pow-suc}
use Prim.Native.Nat.{ℕ, zero, suc, ◌+◌, ◌*◌, ◌/◌, ◌%◌, ◌^◌, ◌<◌}
use mathlib.Core.Path.{◌≡◌, refl, ap}
use mathlib.Core.List.{List, [], ◌∷◌, ◌++◌}
use native.Mathlib.Omega.{arith}
use mimisbrunnr.Base.Lists.{length, take, drop, take-append, drop-append}

-- The `w` bytes of a word, lowest first.
unfoldable pub le_bytes : ℕ → ℕ → List ℕ
le_bytes zero x = []
le_bytes (suc w) x = x % 256 ∷ le_bytes w (x / 256)

-- `from_le_bytes`
unfoldable pub from_le : List ℕ → ℕ
from_le [] = 0
from_le (b ∷ bs) = b + 256 * from_le bs

-- `[0; n]`
unfoldable pub zeros : ℕ → List ℕ
zeros zero = []
zeros (suc n) = 0 ∷ zeros n

pub length-zeros : (n : ℕ) → length (zeros n) ≡ n
unfolding zeros
length-zeros zero = refl
length-zeros (suc n) = ap suc (length-zeros n)

pub length-le_bytes : (w x : ℕ) → length (le_bytes w x) ≡ w
unfolding le_bytes
length-le_bytes zero x = refl
length-le_bytes (suc w) x = ap suc (length-le_bytes w (x / 256))

pub from_le-le_bytes : (w x : ℕ) → x < 256 ^ w → from_le (le_bytes w x) ≡ x
unfolding from_le le_bytes
from_le-le_bytes zero x h = omega arith
from_le-le_bytes (suc w) x h =
    let below : x / 256 < 256 ^ w = omega (arith, pow-suc 256 w) in
    omega (arith, from_le-le_bytes w (x / 256) below)

-- A word in front is read, and skipped, by its width.
pub take-le_bytes : (w x : ℕ) (r : List ℕ) → take w (le_bytes w x ++ r) ≡ le_bytes w x
take-le_bytes w x r = take-append w (le_bytes w x) r (length-le_bytes w x)

pub drop-le_bytes : (w x : ℕ) (r : List ℕ) → drop w (le_bytes w x ++ r) ≡ r
drop-le_bytes w x r = drop-append w (le_bytes w x) r (length-le_bytes w x)
