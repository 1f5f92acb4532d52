-- ===== src/Query/Token.antt =====
-- The tokeniser of `crates/query/src/parser.rs`. A place in the input is its position with the bytes from
-- there on. The input is UTF-8, and a word is cut at ASCII bytes, so `from_utf8` cannot fail on it.
pub mod Lexes
pub mod Total
use mimisbrunnr.Base.{
  ℕ, zero, suc, ◌+◌, ◌-◌, ◌/◌, ◌%◌, ◌^◌, Bool, not, true, false, ◌&&◌, ◌||◌, List, [], ◌∷◌, ◌++◌,
  length, drop, Option, none, some, if◌then◌else◌, ltb, ◌==◌, bytes_eq,
}
use mimisbrunnr.Types.ObjectId.{ObjectId, from_parts}
use mimisbrunnr.Query.Text.{codes, take_while, drop_while, is_digit, strip_prefix, parse_unsigned}
use mimisbrunnr.Query.Error.{QueryError, parse_error, Outcome, done, failed, out_of_fuel, bind}

pub data Token : Type 0 where
  lparen rparen : Token
  word : List ℕ → Token
  str : List ℕ → Token
  at_id : ℕ → Token
  obj_id : ObjectId → Token

-- The derived `PartialEq`.
unfoldable pub same : Token → Token → Bool
same lparen lparen = true
same rparen rparen = true
same (word a) (word b) = bytes_eq a b
same (str a) (str b) = bytes_eq a b
same (at_id a) (at_id b) = a == b
same (obj_id a) (obj_id b) = a == b
same _ _ = false

-- `u8::is_ascii_whitespace`
abbrev pub is_whitespace : ℕ → Bool
is_whitespace b = b == 32 || b == 9 || b == 10 || b == 12 || b == 13

-- The bytes that do not end a bare word.
abbrev pub is_word_byte : ℕ → Bool
is_word_byte b = not (b == b'(') && not (b == b')') && not (is_whitespace b) && not (b == b'"')

-- `buf.push(b as char)`: the UTF-8 bytes of the code point `b`.
unfoldable pub as_char : ℕ → List ℕ
as_char b = if ltb b 128 then b ∷ [] else (192 + b / 64) ∷ (128 + b % 64) ∷ []

-- One round of the loop: the position and the rest behind whitespace or behind a token, or an error.
pub data Round : Type 0 where
  skip : (i : ℕ) (rest : List ℕ) → Round
  token : Token → (i : ℕ) (rest : List ℕ) → Round
  stop : QueryError → Round

-- The loop over a quoted string, behind the opening quote.
unfoldable pub quoted : ℕ → List ℕ → List ℕ → Round
quoted i buf [] = stop (parse_error i)
quoted i buf (c ∷ []) = if c == b'"' then token (str buf) (i + 1) [] else stop (parse_error (i + 1))
quoted i buf (c ∷ next ∷ rest) = elim (c == b'"') [
  | true ↦ token (str buf) (i + 1) (next ∷ rest)
  | false ↦ elim (c == b'\\') [
    | true ↦ quoted (i + 2) (buf ++ as_char next) rest
    | false ↦ quoted (i + 1) (buf ++ as_char c) (next ∷ rest)
  ]
]

-- The digits behind the `@` at `i`, and the rest.
unfoldable pub tag_id_of : ℕ → List ℕ → List ℕ → Round
tag_id_of i [] rest = stop (parse_error i)
tag_id_of i (d ∷ ds) rest = elim (parse_unsigned 10 (2 ^ 32 - 1) (d ∷ ds)) [
  | none ↦ stop (parse_error i)
  | some raw ↦ token (at_id raw) (i + 1 + length (d ∷ ds)) rest
]

unfoldable pub at_literal : ℕ → List ℕ → Round
at_literal i bs = tag_id_of i (take_while is_digit bs) (drop_while is_digit bs)

abbrev pub not_colon : ℕ → Bool
not_colon b = not (b == b':')

-- The node and the local part of `obj:<hex>:<dec>`, a word that starts at `i` and ends at `j`.
unfoldable pub object_id_of : ℕ → List ℕ → List ℕ → ℕ → List ℕ → Round
object_id_of i node_part local_part j rest = elim (parse_unsigned 16 (2 ^ 16 - 1) node_part) [
  | none ↦ stop (parse_error i)
  | some node ↦ elim (parse_unsigned 10 (2 ^ 64 - 1) local_part) [
    | none ↦ stop (parse_error i)
    | some local ↦ token (obj_id (from_parts node local)) j rest
  ]
]

-- `stripped.splitn(2, ':')`
unfoldable pub obj_literal : ℕ → List ℕ → ℕ → List ℕ → Round
obj_literal i stripped =
    object_id_of i (take_while not_colon stripped) (drop 1 (drop_while not_colon stripped))

-- A bare word `w` that starts at `i`, and the rest.
unfoldable pub word_of : ℕ → List ℕ → List ℕ → Round
word_of i [] rest = stop (parse_error i)
word_of i (c ∷ w) rest = elim (strip_prefix (codes "obj:") (c ∷ w)) [
  | none ↦ token (word (c ∷ w)) (i + length (c ∷ w)) rest
  | some stripped ↦ obj_literal i stripped (i + length (c ∷ w)) rest
]

unfoldable pub word_literal : ℕ → List ℕ → Round
word_literal i bs = word_of i (take_while is_word_byte bs) (drop_while is_word_byte bs)

unfoldable pub round : ℕ → ℕ → List ℕ → Round
round i c bs =
    if is_whitespace c
    then skip (i + 1) bs
    else if c == b'('
    then token lparen (i + 1) bs
    else if c == b')'
    then token rparen (i + 1) bs
    else if c == b'"'
    then quoted (i + 1) [] bs
    else if c == b'@'
    then at_literal i bs
    else word_literal i (c ∷ bs)

-- The loop, with fuel for its rounds.
unfoldable pub tokenize_from : ℕ → ℕ → List ℕ → Outcome (List Token)
tokenize_from zero i bs = out_of_fuel
tokenize_from (suc fuel) i [] = done []
tokenize_from (suc fuel) i (c ∷ bs) = elim (round i c bs) [
  | skip j rest ↦ tokenize_from fuel j rest
  | token t j rest ↦ bind (tokenize_from fuel j rest) (λ ts. done (t ∷ ts))
  | stop e ↦ failed e
]

-- Each round takes a byte or more.
unfoldable pub tokenize : List ℕ → Outcome (List Token)
unfolding tokenize_from
tokenize input = tokenize_from (length input + 1) 0 input
