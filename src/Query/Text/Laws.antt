-- ===== src/Query/Text/Laws.antt =====
-- What is printed as a number is read back as it.
use native.Mathlib.Nat.{pow-suc, pow-zero, div-add-mod', mod-lt, div-lt_iff_lt-mul, div-le_self}
use mimisbrunnr.Base.{
  ℕ, zero, suc, ◌-◌, ◌/◌, ◌%◌, ◌^◌, ◌≤◌, ◌<◌, ◌≡◌, refl, ap, ◌∙◌, ◌≢◌, not, ◌&&◌, sym, inl, inr,
  Bool, true, List, [], ◌∷◌, ◌++◌, append_assoc, append-nil, none, some, ltb, ◌==◌, Bool-cases,
  ltb→lt, arith,
}
use mimisbrunnr.Base.Int.{ℤ, pos, negsuc, IsI64}
use mimisbrunnr.Query.Text.{
  digit, digits, decimal, int_text, digit_value, parse_digits, parse_magnitude, parse_unsigned,
  negated, parse_i64, is_digit,
}

digit_value-digit : (radix d : ℕ) → radix ≤ 16 → d < radix → digit_value radix (digit d) ≡ some d
unfolding digit_value digit
digit_value-digit radix d small h = ground arith

pos_of_gt_one : (radix : ℕ) → 1 < radix → 0 < radix
pos_of_gt_one radix h = omega arith

-- The digits of a number go into the accumulator as that number.
parse_digits-digits :
    (radix n k max : ℕ) (rest : List ℕ)
    → 1 < radix
    → radix ≤ 16
    → k < radix ^ n
    → k ≤ max
    → parse_digits radix max 0 (digits radix n k ++ rest) ≡ parse_digits radix max k rest
unfolding parse_digits digits
parse_digits-digits radix zero k max rest r small h fits =
    let e : k ≡ 0 = omega (arith, pow-zero radix) in ap (λ a. parse_digits radix max a rest) (sym e)
parse_digits-digits radix (suc n) k max rest r small h fits = elim (Bool-cases (ltb k radix)) [
  | inl one ↦ rw one (ground (arith, digit_value-digit radix k))
  | inr more ↦
      rw (more, append_assoc)
        (parse_digits-digits radix n (k / radix) max (digit (k % radix) ∷ rest) r small
            ((div-lt_iff_lt-mul (omega arith)).1 (omega (arith, pow-suc radix n)))
            (omega (arith, div-le_self k radix))
          ∙ ground (
            arith,
            digit_value-digit radix (k % radix),
            div-add-mod' k radix,
            mod-lt k (pos_of_gt_one radix r),
          ))
]

append_one-ne-nil : (bs : List ℕ) (b : ℕ) → bs ++ (b ∷ []) ≢ []
append_one-ne-nil [] b e = cc
append_one-ne-nil (x ∷ bs) b e = cc

-- Every byte passes the test.
abbrev pub all : (ℕ → Bool) → List ℕ → Bool
all p [] = true
all p (b ∷ bs) = p b && all p bs

pub all-append :
    (p : ℕ → Bool) (xs ys : List ℕ) → all p xs ≡ true → all p ys ≡ true → all p (xs ++ ys) ≡ true
all-append p [] ys h k = k
all-append p (x ∷ xs) ys h k = ground (arith, all-append p xs ys)

pub all-digits :
    (p : ℕ → Bool) (radix n k : ℕ)
    → 0 < radix
    → ((d : ℕ) → d < radix → p (digit d) ≡ true)
    → all p (digits radix n k) ≡ true
unfolding digits
all-digits p radix zero k r h = refl
all-digits p radix (suc n) k r h = elim (Bool-cases (ltb k radix)) [
  | inl one ↦ rw (one, h k (ltb→lt k radix one)) refl
  | inr more ↦ rw more (
      all-append p (digits radix n (k / radix)) (digit (k % radix) ∷ [])
        (all-digits p radix n (k / radix) r h) (rw (h (k % radix) (mod-lt k r)) refl))
]

pub digits-ne-nil : (radix n k : ℕ) → digits radix (suc n) k ≢ []
unfolding digits
digits-ne-nil radix n k = elim (Bool-cases (ltb k radix)) [
  | inl one ↦ rw one (λ e. cc)
  | inr more ↦ rw more (append_one-ne-nil (digits radix n (k / radix)) (digit (k % radix)))
]

is_decimal_digit : (d : ℕ) → d < 10 → is_digit (digit d) ≡ true
unfolding digit
is_decimal_digit d h = ground arith

pub all-decimal : (k : ℕ) → all is_digit (decimal k) ≡ true
all-decimal k = all-digits is_digit 10 20 k (omega arith) is_decimal_digit

abbrev no_sign : ℕ → Bool
no_sign b = not (b == b'+') && not (b == b'-')

no_sign-digit : (d : ℕ) → d < 16 → no_sign (digit d) ≡ true
unfolding digit
no_sign-digit d h = ground arith

parse_magnitude_lem :
    (radix max : ℕ) (bs : List ℕ)
    → bs ≢ []
    → parse_magnitude radix max bs ≡ parse_digits radix max 0 bs
unfolding parse_magnitude
parse_magnitude_lem radix max [] h = absurd (h refl)
parse_magnitude_lem radix max (b ∷ bs) h = refl

parse_unsigned_lem :
    (radix max : ℕ) (bs : List ℕ)
    → bs ≢ []
    → all no_sign bs ≡ true
    → parse_unsigned radix max bs ≡ parse_digits radix max 0 bs
unfolding parse_unsigned
parse_unsigned_lem radix max [] h s = absurd (h refl)
parse_unsigned_lem radix max (b ∷ bs) h s = ground (arith, parse_magnitude_lem radix max (b ∷ bs) h)

parse_i64_lem :
    (bs : List ℕ)
    → bs ≢ []
    → all no_sign bs ≡ true
    → parse_i64 bs
      ≡ elim (parse_digits 10 (2 ^ 63 - 1) 0 bs) [ none ↦ none | some k ↦ some (pos k) ]
unfolding parse_i64
parse_i64_lem [] h s = absurd (h refl)
parse_i64_lem (b ∷ bs) h s = ground (arith, parse_magnitude_lem 10 (2 ^ 63 - 1) (b ∷ bs) h)

parse_i64_minus :
    (bs : List ℕ)
    → parse_i64 (b'-' ∷ bs)
      ≡ elim (parse_magnitude 10 (2 ^ 63) bs) [ none ↦ none | some k ↦ some (negated k) ]
unfolding parse_i64
parse_i64_minus bs = refl

parse_all_digits :
    (radix n k max : ℕ)
    → 1 < radix
    → radix ≤ 16
    → k < radix ^ n
    → k ≤ max
    → parse_digits radix max 0 (digits radix n k) ≡ some k
unfolding parse_digits
parse_all_digits radix n k max r small h fits =
    ap (parse_digits radix max 0) (sym (append-nil (digits radix n k)))
    ∙ parse_digits-digits radix n k max [] r small h fits

-- A number of a word's range is read back from its digits.
pub parse_unsigned-digits :
    (radix n k max : ℕ)
    → 1 < radix
    → radix ≤ 16
    → k < radix ^ suc n
    → k ≤ max
    → parse_unsigned radix max (digits radix (suc n) k) ≡ some k
parse_unsigned-digits radix n k max r small h fits =
    parse_unsigned_lem radix max (digits radix (suc n) k) (digits-ne-nil radix n k) (
      all-digits no_sign radix (suc n) k (pos_of_gt_one radix r)
        (λ d lt. no_sign-digit d (omega arith)))
    ∙ parse_all_digits radix (suc n) k max r small h fits

pub parse_i64-int_text : (v : ℤ) → IsI64 v → parse_i64 (int_text v) ≡ some v
unfolding negated
parse_i64-int_text (pos k) h =
    rw
      (parse_all_digits 10 20 k (2 ^ 63 - 1) (omega arith) (omega arith) (omega arith)
        (omega arith))
      at
      (parse_i64_lem (decimal k) (digits-ne-nil 10 19 k)
        (all-digits no_sign 10 20 k (omega arith) (λ d lt. no_sign-digit d (omega arith))))
parse_i64-int_text (negsuc k) h =
    rw
      (
        parse_magnitude_lem 10 (2 ^ 63) (decimal (suc k)) (digits-ne-nil 10 19 (suc k)),
        parse_all_digits 10 20 (suc k) (2 ^ 63) (omega arith) (omega arith) (omega arith)
            (omega arith),
      )
      at (parse_i64_minus (decimal (suc k)))
