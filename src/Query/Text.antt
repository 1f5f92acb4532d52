-- ===== src/Query/Text.antt =====
-- Text as bytes, and the numbers in it, as `crates/query/src/parser.rs` prints and reads them: `to_string`
-- and `{:x}` on one side, `parse` and `from_str_radix` of the standard library on the other.
pub mod Laws
use Prim.Native.Char.{code}
use Prim.Native.String.{String}
use mimisbrunnr.Base.{
  ℕ, zero, suc, ◌+◌, ◌-◌, ◌*◌, ◌/◌, ◌%◌, ◌^◌, Bool, ◌&&◌, List, [], ◌∷◌, ◌++◌, Option, none, some,
  if◌then◌else◌, ltb, leb, ◌==◌,
}
use mimisbrunnr.Base.Int.{ℤ, pos, negsuc}

-- The bytes of an ASCII literal.
abbrev pub codes : String → List ℕ
codes String.[] = []
codes (String.◌∷◌ c s) = code c ∷ codes s

unfoldable pub take_while : (ℕ → Bool) → List ℕ → List ℕ
take_while p [] = []
take_while p (b ∷ bs) = if p b then b ∷ take_while p bs else []

unfoldable pub drop_while : (ℕ → Bool) → List ℕ → List ℕ
drop_while p [] = []
drop_while p (b ∷ bs) = if p b then drop_while p bs else b ∷ bs

-- `u8::is_ascii_digit`
abbrev pub is_digit : ℕ → Bool
is_digit b = leb b'0' b && leb b b'9'

-- `str::strip_prefix`
unfoldable pub strip_prefix : List ℕ → List ℕ → Option (List ℕ)
strip_prefix [] bs = some bs
strip_prefix (p ∷ ps) [] = none
strip_prefix (p ∷ ps) (b ∷ bs) = if p == b then strip_prefix ps bs else none

-- A digit below the radix, in lower case.
unfoldable pub digit : ℕ → ℕ
digit d = if ltb d 10 then b'0' + d else b'a' + d - 10

-- `to_string` or `{:x}` of a number of at most `n` digits.
unfoldable pub digits : ℕ → ℕ → ℕ → List ℕ
unfolding digit
digits radix zero k = []
digits radix (suc n) k =
    let more = digits radix n (k / radix) ++ (digit (k % radix) ∷ []) in
    if ltb k radix then digit k ∷ [] else more

-- 20 digits are enough for a word of 64 bits, and 4 hexadecimal ones for one of 16.
abbrev pub decimal : ℕ → List ℕ
decimal = digits 10 20

abbrev pub hex : ℕ → List ℕ
hex = digits 16 4

-- `i64::to_string`
abbrev pub int_text : ℤ → List ℕ
int_text (pos n) = decimal n
int_text (negsuc n) = b'-' ∷ decimal (suc n)

-- `char::to_digit`
unfoldable pub digit_value : ℕ → ℕ → Option ℕ
digit_value radix b =
    let v =
      if leb b'0' b && leb b b'9'
      then b - b'0'
      else if leb b'a' b && leb b b'z'
      then b + 10 - b'a'
      else if leb b'A' b && leb b b'Z'
      then b + 10 - b'A'
      else radix in
    if ltb v radix then some v else none

-- The loop of `from_str_radix` with its overflow checks, up to `max`.
unfoldable pub parse_digits : ℕ → ℕ → ℕ → List ℕ → Option ℕ
unfolding digit_value
parse_digits radix max acc [] = some acc
parse_digits radix max acc (b ∷ bs) = elim (digit_value radix b) [
  | none ↦ none
  | some d ↦ if leb (acc * radix + d) max then parse_digits radix max (acc * radix + d) bs else none
]

-- `from_str_radix` behind the sign: at least one digit.
unfoldable pub parse_magnitude : ℕ → ℕ → List ℕ → Option ℕ
unfolding parse_digits
parse_magnitude radix max [] = none
parse_magnitude radix max (b ∷ bs) = parse_digits radix max 0 (b ∷ bs)

-- `from_str_radix` of an unsigned word, which takes a plus sign.
unfoldable pub parse_unsigned : ℕ → ℕ → List ℕ → Option ℕ
unfolding parse_magnitude
parse_unsigned radix max [] = none
parse_unsigned radix max (b ∷ bs) =
    if b == b'+' then parse_magnitude radix max bs else parse_magnitude radix max (b ∷ bs)

-- -k, as an integer.
unfoldable pub negated : ℕ → ℤ
negated zero = pos 0
negated (suc n) = negsuc n

-- `parse::<i64>`
unfoldable pub parse_i64 : List ℕ → Option ℤ
unfolding parse_magnitude negated
parse_i64 [] = none
parse_i64 (b ∷ bs) =
    if b == b'-'
    then elim (parse_magnitude 10 (2 ^ 63) bs) [ none ↦ none | some k ↦ some (negated k) ]
    else if b == b'+'
    then elim (parse_magnitude 10 (2 ^ 63 - 1) bs) [ none ↦ none | some k ↦ some (pos k) ]
    else elim (parse_magnitude 10 (2 ^ 63 - 1) (b ∷ bs)) [ none ↦ none | some k ↦ some (pos k) ]
