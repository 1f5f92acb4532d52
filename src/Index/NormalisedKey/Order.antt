-- ===== src/Index/NormalisedKey/Order.antt =====
-- Where the order of the keys of `crates/index/src/normalised_key.rs` is the order of the values.
use native.Mathlib.Nat.{pow-suc}
use Prim.Native.Nat.Ordering.{lt, eq, gt}
use mimisbrunnr.Base.{
  ℕ, zero, suc, ◌+◌, ◌-◌, ◌/◌, ◌%◌, ◌^◌, ◌≤◌, ◌<◌, ◌≡◌, refl, sym, ap, ◌∙◌, min, compare, Ordering,
  List, [], ◌∷◌, ◌++◌, length, length-append, zeros, if◌then◌else◌, ltb, ◌==◌, arith,
}
use mimisbrunnr.Base.Int.{ℤ, pos_part, neg_part, compare_ℤ, IsI64}
use mimisbrunnr.Base.OrdMap.{then_with}
use mimisbrunnr.Types.Value.{text, int, float, timestamp, blob}
use mimisbrunnr.Index.NormalisedKey.{
  be_bytes, unsigned, flipped, copied, byte_string, from_value, compare_bytes,
}

pub compare_bytes_refl : (xs : List ℕ) → compare_bytes xs xs ≡ eq
unfolding compare_bytes
compare_bytes_refl [] = refl
compare_bytes_refl (x ∷ xs) = ground (arith, compare_bytes_refl xs)

compare_bytes-append :
    (xs ys us vs : List ℕ)
    → length xs ≡ length ys
    → compare_bytes (xs ++ us) (ys ++ vs) ≡ then_with (compare_bytes xs ys) (compare_bytes us vs)
unfolding compare_bytes
compare_bytes-append [] [] us vs h = refl
compare_bytes-append [] (y ∷ ys) us vs h = absurd (omega arith)
compare_bytes-append (x ∷ xs) [] us vs h = absurd (omega arith)
compare_bytes-append (x ∷ xs) (y ∷ ys) us vs h =
    ground (arith, compare_bytes-append xs ys us vs (omega arith))

length-be_bytes : (w x : ℕ) → length (be_bytes w x) ≡ w
unfolding be_bytes
length-be_bytes zero x = refl
length-be_bytes (suc w) x =
    omega
      (arith, length-append {0} (be_bytes w (x / 256)) (x % 256 ∷ []), length-be_bytes w (x / 256))

-- Big-endian words of one width are ordered like their values.
compare_bytes-be_bytes :
    (w x y : ℕ)
    → x < 256 ^ w
    → y < 256 ^ w
    → compare_bytes (be_bytes w x) (be_bytes w y) ≡ compare x y
unfolding be_bytes compare_bytes
compare_bytes-be_bytes zero x y h k = ground arith
compare_bytes-be_bytes (suc w) x y h k =
    let x_below : x / 256 < 256 ^ w = omega (arith, pow-suc 256 w) in
    let y_below : y / 256 < 256 ^ w = omega (arith, pow-suc 256 w) in
    compare_bytes-append (be_bytes w (x / 256)) (be_bytes w (y / 256)) (x % 256 ∷ []) (y % 256 ∷ [])
      (length-be_bytes w (x / 256) ∙ sym (length-be_bytes w (y / 256)))
    ∙ ground (arith, compare_bytes-be_bytes w (x / 256) (y / 256) x_below y_below)

word_order :
    (t x y : ℕ)
    → x < 2 ^ 64
    → y < 2 ^ 64
    → compare_bytes (t ∷ be_bytes 8 x ++ zeros 7) (t ∷ be_bytes 8 y ++ zeros 7) ≡ compare x y
unfolding compare_bytes
word_order t x y h k = ground (
  arith,
  compare_bytes-append (be_bytes 8 x) (be_bytes 8 y) (zeros 7) (zeros 7)
      (length-be_bytes 8 x ∙ sym (length-be_bytes 8 y)),
  compare_bytes-be_bytes 8 x y h k,
  compare_bytes_refl (zeros 7),
)

-- The keys of two integers, and of two timestamps, are ordered like these.
pub int_order :
    (a b : ℤ)
    → IsI64 a
    → IsI64 b
    → (compare_bytes (from_value (int a)) (from_value (int b)) ≡ compare_ℤ a b)
      × (compare_bytes (from_value (timestamp a)) (from_value (timestamp b)) ≡ compare_ℤ a b)
unfolding from_value unsigned
int_order a b h k =
    let signed : compare (2 ^ 63 + pos_part a - neg_part a) (2 ^ 63 + pos_part b - neg_part b)
        ≡ compare_ℤ a b =
      ground arith in
    (
      word_order 1 _ _ (omega arith) (omega arith) ∙ signed,
      word_order 3 _ _ (omega arith) (omega arith) ∙ signed,
    )

-- The order of floats that are not NaN, by sign and magnitude; negative zero comes before zero.
unfoldable pub compare_floats : ℕ → ℕ → Ordering
compare_floats a b =
    if a / 2 ^ 63 == 0
    then if b / 2 ^ 63 == 0 then compare a b else gt
    else if b / 2 ^ 63 == 0
    then lt
    else compare (b % 2 ^ 63) (a % 2 ^ 63)

-- The keys of two floats are ordered by sign and magnitude.
pub float_order :
    (a b : ℕ)
    → a < 2 ^ 64
    → b < 2 ^ 64
    → compare_bytes (from_value (float a)) (from_value (float b)) ≡ compare_floats a b
unfolding from_value flipped compare_floats
float_order a b h k =
    word_order 2 (flipped a) (flipped b) (ground arith) (ground arith) ∙ ground arith

-- Zeros are not after any string.
copied_zeros : (n : ℕ) (s : List ℕ) → then_with (compare_bytes (copied n s) (copied n [])) gt ≡ gt
unfolding copied compare_bytes
copied_zeros zero s = refl
copied_zeros (suc n) [] = ground (arith, compare_bytes_refl (copied n []))
copied_zeros (suc n) (x ∷ s) = ground (arith, copied_zeros n s)

-- Two strings in the same number of bytes, told apart by their lengths where the zeros hide them.
copied_order :
    (n : ℕ) (s t : List ℕ)
    → length s ≤ n
    → length t ≤ n
    → then_with (compare_bytes (copied n s) (copied n t)) (compare (length s) (length t))
      ≡ compare_bytes s t
unfolding copied compare_bytes
copied_order zero [] [] h k = ground arith
copied_order zero [] (y ∷ t) h k = absurd (omega arith)
copied_order zero (x ∷ s) t h k = absurd (omega arith)
copied_order (suc n) [] [] h k = ground (arith, compare_bytes_refl (copied n []))
copied_order (suc n) [] (y ∷ t) h k =
    ground (arith, copied_order n [] t (omega arith) (omega arith))
copied_order (suc n) (x ∷ s) [] h k = ground (arith, copied_zeros n s)
copied_order (suc n) (x ∷ s) (y ∷ t) h k =
    ground (arith, copied_order n s t (omega arith) (omega arith))

length-copied : (n : ℕ) (bs : List ℕ) → length (copied n bs) ≡ n
unfolding copied
length-copied zero bs = refl
length-copied (suc n) [] = ap suc (length-copied n [])
length-copied (suc n) (b ∷ bs) = ap suc (length-copied n bs)

string_order :
    (s t : List ℕ)
    → compare_bytes (byte_string s) (byte_string t)
      ≡ then_with (compare_bytes (copied 13 s) (copied 13 t)) (
          then_with
            (compare (if ltb 13 (length s) then 1 else 0) (if ltb 13 (length t) then 1 else 0))
            (compare (min (length s) 255) (min (length t) 255)))
unfolding byte_string compare_bytes
string_order s t =
    compare_bytes-append (copied 13 s) (copied 13 t) _ _
      (length-copied 13 s ∙ sym (length-copied 13 t))
    ∙ ground arith

-- The keys of two texts, and of two blobs, of at most 13 bytes are ordered like their bytes.
short_text_order :
    (s t : List ℕ)
    → length s ≤ 13
    → length t ≤ 13
    → (compare_bytes (from_value (text s)) (from_value (text t)) ≡ compare_bytes s t)
      × (compare_bytes (from_value (blob s)) (from_value (blob t)) ≡ compare_bytes s t)
unfolding from_value compare_bytes
short_text_order s t h k =
    let same = string_order s t in
    let order = copied_order 13 s t h k in
    (ground (arith, same, order), ground (arith, same, order))

-- The keys of two texts of more than 13 bytes with the same first 13 are ordered by the lengths, up to
-- 255, whatever the other bytes are.
long_text_order :
    (s t : List ℕ)
    → 13 < length s
    → 13 < length t
    → copied 13 s ≡ copied 13 t
    → compare_bytes (from_value (text s)) (from_value (text t))
      ≡ compare (min (length s) 255) (min (length t) 255)
unfolding from_value compare_bytes
long_text_order s t h k same = ground (
  arith,
  string_order s t,
  ap (compare_bytes (copied 13 s)) same,
  compare_bytes_refl (copied 13 s),
)
