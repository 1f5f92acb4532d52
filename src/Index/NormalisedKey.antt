-- ===== src/Index/NormalisedKey.antt =====
-- `crates/index/src/normalised_key.rs`: the 16-byte key of a value in the range index. The derived order
-- of keys is that of their bytes.
pub mod Order
mod Tests
use Prim.Native.Nat.Ordering.{lt, eq, gt}
use mimisbrunnr.Base.{
  ℕ, zero, suc, ◌+◌, ◌-◌, ◌*◌, ◌/◌, ◌%◌, ◌^◌, min, compare, Ordering, List, [], ◌∷◌, ◌++◌, length,
  take, drop, zeros, if◌then◌else◌, ltb, ◌==◌,
}
use mimisbrunnr.Base.Int.{ℤ, pos, negsuc, pos_part, neg_part}
use mimisbrunnr.Base.OrdMap.{then_with}
use mimisbrunnr.Types.Value.{Value, text, int, float, timestamp, blob, scoped}

-- `to_be_bytes` of a word of `w` bytes.
unfoldable pub be_bytes : ℕ → ℕ → List ℕ
be_bytes zero x = []
be_bytes (suc w) x = be_bytes w (x / 256) ++ (x % 256 ∷ [])

-- `v as i128 - i64::MIN as i128`, as a `u64`.
unfoldable pub unsigned : ℤ → ℕ
unsigned v = 2 ^ 63 + pos_part v - neg_part v

-- The bits of a float behind the sign-flip.
unfoldable pub flipped : ℕ → ℕ
flipped bits = if bits / 2 ^ 63 % 2 == 0 then bits + 2 ^ 63 else 2 ^ 64 - 1 - bits

-- The first `n` bytes copied into `n` zeros.
unfoldable pub copied : ℕ → List ℕ → List ℕ
copied zero bs = []
copied (suc n) [] = 0 ∷ copied n []
copied (suc n) (b ∷ bs) = b ∷ copied n bs

-- The 15 bytes of a text or a blob: its start, the continuation flag, and its length.
unfoldable pub byte_string : List ℕ → List ℕ
unfolding copied
byte_string bs = copied 13 bs ++ ((if ltb 13 (length bs) then 1 else 0) ∷ min (length bs) 255 ∷ [])

unfoldable pub from_value : Value → List ℕ
unfolding be_bytes unsigned flipped byte_string
from_value (int v) = 1 ∷ be_bytes 8 (unsigned v) ++ zeros 7
from_value (timestamp v) = 3 ∷ be_bytes 8 (unsigned v) ++ zeros 7
from_value (float bits) = 2 ∷ be_bytes 8 (flipped bits) ++ zeros 7
from_value (text bs) = 0 ∷ byte_string bs
from_value (blob bs) = 4 ∷ byte_string bs
from_value (scoped context inner) = 5 ∷ be_bytes 4 context ++ take 11 (drop 1 (from_value inner))

-- The derived `Ord` of `[u8; 16]`.
unfoldable pub compare_bytes : List ℕ → List ℕ → Ordering
compare_bytes [] [] = eq
compare_bytes [] (y ∷ ys) = lt
compare_bytes (x ∷ xs) [] = gt
compare_bytes (x ∷ xs) (y ∷ ys) = then_with (compare x y) (compare_bytes xs ys)
