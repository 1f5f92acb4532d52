-- ===== src/Query/Token/Lexes.antt =====
-- What the tokeniser of `crates/query/src/parser.rs` makes of each kind of token, whatever stands behind it.
use mimisbrunnr.Base.{
  ℕ, zero, suc, ◌+◌, ◌-◌, ◌^◌, ◌≤◌, ◌<◌, ◌≡◌, ◌≢◌, refl, ap, ap₂, ◌∙◌, Bool, true, false, List, [],
  ◌∷◌, ◌++◌, length, length-append, drop, none, some, ◌==◌, arith,
}
use mimisbrunnr.Types.ObjectId.{
  ObjectId, from_parts, node_id, local_seq, from_parts_lem, node_id-lt, local_seq-lt,
}
use mimisbrunnr.Query.Text.{
  codes, take_while, drop_while, is_digit, strip_prefix, parse_unsigned, digits, decimal, hex,
  digit,
}
use mimisbrunnr.Query.Text.Laws.{
  all, all-append, all-digits, all-decimal, digits-ne-nil, parse_unsigned-digits,
}
use mimisbrunnr.Query.Error.{done}
use mimisbrunnr.Query.Token.{
  Token, lparen, rparen, word, at_id, obj_id, token, is_word_byte, at_literal, not_colon,
  object_id_of, obj_literal, tag_id_of, word_of, word_literal, round, tokenize_from,
}

-- From any position, and with fuel above the length, the tokeniser reads `ts`.
abbrev pub Lexes : List ℕ → List Token → Type 0
Lexes bs ts = (i fuel : ℕ) → length bs < fuel → tokenize_from fuel i bs ≡ done ts

-- Where the rest cannot go on with a word.
abbrev pub Ends : List ℕ → Type 0
Ends [] = Unit {0}
Ends (b ∷ bs) = is_word_byte b ≡ false

pub Lexes-nil : Lexes [] []
unfolding tokenize_from
Lexes-nil i zero h = elim h [ ]
Lexes-nil i (suc fuel) h = refl

pub Lexes-skip : (bs : List ℕ) (ts : List Token) → Lexes bs ts → Lexes (b' ' ∷ bs) ts
unfolding tokenize_from round
Lexes-skip bs ts l i zero h = elim h [ ]
Lexes-skip bs ts l i (suc fuel) h = l (i + 1) fuel (omega arith)

-- A round that gives a token.
pub Lexes-token :
    (c : ℕ) (bs rest : List ℕ) (t : Token) (ts : List Token)
    → ((i : ℕ) → (j : ℕ) × (round i c bs ≡ token t j rest))
    → length rest ≤ length bs
    → Lexes rest ts
    → Lexes (c ∷ bs) (t ∷ ts)
unfolding tokenize_from
Lexes-token c bs rest t ts r short l i zero h = elim h [ ]
Lexes-token c bs rest t ts r short l i (suc fuel) h =
    let (j, e) = r i in rw (e, tokenize_from) (rw (l j fuel (omega arith)))

pub Lexes-lparen : (bs : List ℕ) (ts : List Token) → Lexes bs ts → Lexes (b'(' ∷ bs) (lparen ∷ ts)
unfolding round
Lexes-lparen bs ts = Lexes-token b'(' bs bs lparen ts (λ i. (i + 1, refl)) (omega arith)

pub Lexes-rparen : (bs : List ℕ) (ts : List Token) → Lexes bs ts → Lexes (b')' ∷ bs) (rparen ∷ ts)
unfolding round
Lexes-rparen bs ts = Lexes-token b')' bs bs rparen ts (λ i. (i + 1, refl)) (omega arith)

-- A run of bytes that pass a test, in front of one that does not.
abbrev Stops : (ℕ → Bool) → List ℕ → Type 0
Stops p [] = Unit {0}
Stops p (b ∷ bs) = p b ≡ false

take_while-append :
    (p : ℕ → Bool) (xs rest : List ℕ)
    → all p xs ≡ true
    → Stops p rest
    → take_while p (xs ++ rest) ≡ xs
unfolding take_while
take_while-append p [] [] h s = refl
take_while-append p [] (b ∷ bs) h s = rw s
take_while-append p (x ∷ xs) rest h s = ground (arith, take_while-append p xs rest)

drop_while-append :
    (p : ℕ → Bool) (xs rest : List ℕ)
    → all p xs ≡ true
    → Stops p rest
    → drop_while p (xs ++ rest) ≡ rest
unfolding drop_while
drop_while-append p [] [] h s = refl
drop_while-append p [] (b ∷ bs) h s = rw s
drop_while-append p (x ∷ xs) rest h s = ground (arith, drop_while-append p xs rest)

-- The first byte, with no byte counted in.
abbrev pub begins_with : ℕ → List ℕ → Bool
begins_with b [] = true
begins_with b (c ∷ _) = c == b

-- A word that the tokeniser takes for nothing else.
pub record IsName (w : List ℕ) : Type 0 where
  pub plain : all is_word_byte w ≡ true
  pub no_at : begins_with b'@' w ≡ false
  pub not_obj : strip_prefix (codes "obj:") w ≡ none

Ends-Stops : (rest : List ℕ) → Ends rest → Stops is_word_byte rest
Ends-Stops [] e = tt
Ends-Stops (b ∷ bs) e = e

-- A byte of a word sends the round to the bare words.
bare :
    (i c : ℕ) (bs : List ℕ)
    → is_word_byte c ≡ true
    → (c == b'@') ≡ false
    → round i c bs ≡ word_literal i (c ∷ bs)
unfolding round
bare i c bs h k = ground arith

word_literal_cut :
    (i : ℕ) (w rest : List ℕ)
    → all is_word_byte w ≡ true
    → Ends rest
    → word_literal i (w ++ rest) ≡ word_of i w rest
unfolding word_literal
word_literal_cut i w rest h e =
    ap₂ (word_of i) (take_while-append is_word_byte w rest h (Ends-Stops rest e))
      (drop_while-append is_word_byte w rest h (Ends-Stops rest e))

word_of_name :
    (i c : ℕ) (w rest : List ℕ)
    → strip_prefix (codes "obj:") (c ∷ w) ≡ none
    → word_of i (c ∷ w) rest ≡ token (word (c ∷ w)) (i + length (c ∷ w)) rest
unfolding word_of
word_of_name i c w rest h = rw (h, word_of)

pub Lexes-word :
    (w rest : List ℕ) (ts : List Token)
    → IsName w
    → Ends rest
    → Lexes rest ts
    → Lexes (w ++ rest) (word w ∷ ts)
Lexes-word [] rest ts n e l = absurd (ground (arith, n.no_at))
Lexes-word (c ∷ w) rest ts n e l =
    Lexes-token c (w ++ rest) rest (word (c ∷ w)) ts
      (λ i. (
        i + length (c ∷ w),
        bare i c (w ++ rest) (ground (arith, n.plain)) n.no_at
            ∙ word_literal_cut i (c ∷ w) rest n.plain e
            ∙ word_of_name i c w rest n.not_obj,
      ))
      (omega (arith, length-append {0} w rest)) l

Ends-Stops_digit : (rest : List ℕ) → Ends rest → Stops is_digit rest
Ends-Stops_digit [] e = tt
Ends-Stops_digit (b ∷ bs) e = ground (arith, e)

tag_id_of_digits :
    (i raw : ℕ) (ds rest : List ℕ)
    → ds ≢ []
    → parse_unsigned 10 (2 ^ 32 - 1) ds ≡ some raw
    → tag_id_of i ds rest ≡ token (at_id raw) (i + 1 + length ds) rest
unfolding tag_id_of
tag_id_of_digits i raw [] rest h p = absurd (h refl)
tag_id_of_digits i raw (d ∷ ds) rest h p = ground (arith, p)

at_round :
    (i raw : ℕ) (rest : List ℕ)
    → raw < 2 ^ 32
    → Ends rest
    → round i b'@' (decimal raw ++ rest) ≡ token (at_id raw) (i + 1 + length (decimal raw)) rest
unfolding round at_literal
at_round i raw rest small e =
    ap₂ (tag_id_of i)
      (take_while-append is_digit (decimal raw) rest (all-decimal raw) (Ends-Stops_digit rest e))
      (drop_while-append is_digit (decimal raw) rest (all-decimal raw) (Ends-Stops_digit rest e))
    ∙ tag_id_of_digits i raw (decimal raw) rest (digits-ne-nil 10 19 raw) (
        parse_unsigned-digits 10 19 raw (2 ^ 32 - 1) (omega arith) (omega arith) (omega arith)
          (omega arith))

-- `@` and the digits of a tag id.
pub Lexes-at :
    (raw : ℕ) (rest : List ℕ) (ts : List Token)
    → raw < 2 ^ 32
    → Ends rest
    → Lexes rest ts
    → Lexes (b'@' ∷ decimal raw ++ rest) (at_id raw ∷ ts)
Lexes-at raw rest ts small e l =
    Lexes-token b'@' (decimal raw ++ rest) rest (at_id raw) ts
      (λ i. (i + 1 + length (decimal raw), at_round i raw rest small e))
      (omega (arith, length-append {0} (decimal raw) rest)) l

-- `obj:<hex>:<dec>`, as `push_str` of the `Related` branch prints it.
abbrev pub obj_text : ObjectId → List ℕ
obj_text id = codes "obj:" ++ (hex (node_id id) ++ b':' ∷ decimal (local_seq id))

object_id_of_ok :
    (i node local : ℕ) (node_part local_part : List ℕ) (j : ℕ) (rest : List ℕ)
    → parse_unsigned 16 (2 ^ 16 - 1) node_part ≡ some node
    → parse_unsigned 10 (2 ^ 64 - 1) local_part ≡ some local
    → object_id_of i node_part local_part j rest ≡ token (obj_id (from_parts node local)) j rest
unfolding object_id_of
object_id_of_ok i node local node_part local_part j rest n l = ground arith

object_id_of_parts :
    (i : ℕ) (id : ObjectId) (j : ℕ) (rest : List ℕ)
    → id < 2 ^ 64
    → object_id_of i (hex (node_id id)) (decimal (local_seq id)) j rest ≡ token (obj_id id) j rest
object_id_of_parts i id j rest small =
    object_id_of_ok i (node_id id) (local_seq id) (hex (node_id id)) (decimal (local_seq id)) j rest
      (parse_unsigned-digits 16 3 (node_id id) (2 ^ 16 - 1) (omega arith) (omega arith)
        (omega (arith, node_id-lt id small)) (omega (arith, node_id-lt id small)))
      (parse_unsigned-digits 10 19 (local_seq id) (2 ^ 64 - 1) (omega arith) (omega arith)
        (omega (arith, local_seq-lt id)) (omega (arith, local_seq-lt id)))
    ∙ ap (λ o. token (obj_id o) j rest) (from_parts_lem id)

not_colon-digit : (d : ℕ) → d < 16 → not_colon (digit d) ≡ true
unfolding digit
not_colon-digit d h = ground arith

is_word_byte-digit : (d : ℕ) → d < 16 → is_word_byte (digit d) ≡ true
unfolding digit
is_word_byte-digit d h = ground arith

pub plain-digits :
    (radix n k : ℕ) → 0 < radix → radix ≤ 16 → all is_word_byte (digits radix n k) ≡ true
plain-digits radix n k h small =
    all-digits is_word_byte radix n k h (λ d lt. is_word_byte-digit d (omega arith))

plain-obj_text : (id : ObjectId) → all is_word_byte (obj_text id) ≡ true
plain-obj_text id =
    all-append is_word_byte (hex (node_id id)) (b':' ∷ decimal (local_seq id))
      (plain-digits 16 4 (node_id id) (omega arith) (omega arith))
      (plain-digits 10 20 (local_seq id) (omega arith) (omega arith))

obj_literal_text :
    (i : ℕ) (id : ObjectId) (j : ℕ) (rest : List ℕ)
    → id < 2 ^ 64
    → obj_literal i (hex (node_id id) ++ b':' ∷ decimal (local_seq id)) j rest
      ≡ token (obj_id id) j rest
unfolding obj_literal
obj_literal_text i id j rest small =
    let colons = all-digits not_colon 16 4 (node_id id) (omega arith) not_colon-digit in
    ap₂ (λ a b. object_id_of i a (drop 1 b) j rest)
      (take_while-append not_colon (hex (node_id id)) (b':' ∷ decimal (local_seq id)) colons refl)
      (drop_while-append not_colon (hex (node_id id)) (b':' ∷ decimal (local_seq id)) colons refl)
    ∙ object_id_of_parts i id j rest small

word_of_obj :
    (i : ℕ) (id : ObjectId) (rest : List ℕ)
    → word_of i (obj_text id) rest
      ≡ obj_literal i
          (hex (node_id id) ++ b':' ∷ decimal (local_seq id))
          (i + length (obj_text id))
          rest
unfolding word_of strip_prefix
word_of_obj i id rest = refl

pub Lexes-obj :
    (id : ObjectId) (rest : List ℕ) (ts : List Token)
    → id < 2 ^ 64
    → Ends rest
    → Lexes rest ts
    → Lexes (obj_text id ++ rest) (obj_id id ∷ ts)
Lexes-obj id rest ts small e l =
    Lexes-token b'o' (drop 1 (obj_text id) ++ rest) rest (obj_id id) ts
      (λ i. (
        i + length (obj_text id),
        bare i b'o' (drop 1 (obj_text id) ++ rest) refl refl
            ∙ word_literal_cut i (obj_text id) rest (plain-obj_text id) e
            ∙ word_of_obj i id rest
            ∙ obj_literal_text i id (i + length (obj_text id)) rest small,
      ))
      (omega (arith, length-append {0} (drop 1 (obj_text id)) rest)) l
