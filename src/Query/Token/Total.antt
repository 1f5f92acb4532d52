-- ===== src/Query/Token/Total.antt =====
-- The tokeniser of `crates/query/src/parser.rs` ends on every input, and reports positions inside it.
use mimisbrunnr.Base.{
  ℕ, zero, suc, ◌+◌, ◌-◌, ◌^◌, ◌≤◌, ◌<◌, ◌≡◌, ◌⊎◌, refl, Bool, true, false, List, [], ◌∷◌, ◌++◌,
  length, Option, none, some, ◌==◌, inl, inr, arith,
}
use mimisbrunnr.Query.Text.{codes, take_while, drop_while, is_digit, strip_prefix, parse_unsigned}
use mimisbrunnr.Query.Error.{
  parse_error, unknown_tag, unknown_op, unsupported_cmp_op, object_id_too_large, Outcome, done,
  failed, bind,
}
use mimisbrunnr.Query.Token.{
  Token, word, Round, skip, token, stop, is_word_byte, as_char, quoted, tag_id_of, at_literal,
  object_id_of, obj_literal, word_of, word_literal, round, tokenize_from, tokenize,
}

while_lengths :
    (p : ℕ → Bool) (bs : List ℕ) → length (take_while p bs) + length (drop_while p bs) ≡ length bs
unfolding take_while drop_while
while_lengths p [] = omega arith
while_lengths p (b ∷ bs) = ground (arith, while_lengths p bs)

module _ (total : ℕ) where
  -- A round at the `n` last bytes of the input moves on, or stops with a position inside the input.
  abbrev Moves : ℕ → Round → Type 0
  Moves n (skip i rest) = (i + length rest ≡ total) × (length rest < n)
  Moves n (token t i rest) = (i + length rest ≡ total) × (length rest < n)
  Moves n (stop (parse_error i)) = i ≤ total
  Moves n (stop _) = ⊥

  Moves-branch :
      (n : ℕ) (b : Bool) (x y : Round)
      → Moves n x
      → Moves n y
      → Moves n (elim b [ true ↦ x | false ↦ y ])
  Moves-branch n true x y h k = h
  Moves-branch n false x y h k = k

  Moves-mono : (m n : ℕ) (r : Round) → m ≤ n → Moves m r → Moves n r
  Moves-mono m n (skip i rest) h k = omega arith
  Moves-mono m n (token t i rest) h k = omega arith
  Moves-mono m n (stop (parse_error i)) h k = k
  Moves-mono m n (stop (unknown_tag w)) h k = k
  Moves-mono m n (stop (unknown_op w)) h k = k
  Moves-mono m n (stop unsupported_cmp_op) h k = k
  Moves-mono m n (stop (object_id_too_large w)) h k = k

  quoted-Moves :
      (i : ℕ) (buf bs : List ℕ) → i + length bs ≡ total → Moves (suc (length bs)) (quoted i buf bs)
  unfolding quoted
  quoted-Moves i buf [] h = omega arith
  quoted-Moves i buf (c ∷ []) h = ground arith
  quoted-Moves i buf (c ∷ next ∷ rest) h =
      Moves-branch _ (c == b'"') _ _ (omega arith, omega arith)
        (Moves-branch _ (c == b'\\') _ _
          (Moves-mono (suc (length rest)) _ _ (omega arith)
            (quoted-Moves (i + 2) (buf ++ as_char next) rest (omega arith)))
          (Moves-mono (suc (length (next ∷ rest))) _ _ (omega arith)
            (quoted-Moves (i + 1) (buf ++ as_char c) (next ∷ rest) (omega arith))))

  parsed-Moves :
      (n i : ℕ) (o : Option ℕ) (f : ℕ → Round)
      → i ≤ total
      → ((k : ℕ) → Moves n (f k))
      → Moves n (elim o [ none ↦ stop (parse_error i) | some k ↦ f k ])
  parsed-Moves n i none f h k = h
  parsed-Moves n i (some v) f h k = k v

  tag_id_of-Moves :
      (i n : ℕ) (ds rest : List ℕ)
      → i + 1 + length ds + length rest ≡ total
      → length rest < n
      → Moves n (tag_id_of i ds rest)
  unfolding tag_id_of
  tag_id_of-Moves i n [] rest h k = omega arith
  tag_id_of-Moves i n (d ∷ ds) rest h k =
      parsed-Moves n i (parse_unsigned 10 (2 ^ 32 - 1) (d ∷ ds)) _ (omega arith)
        (λ raw. (omega arith, omega arith))

  object_id_of-Moves :
      (i n : ℕ) (node_part local_part : List ℕ) (j : ℕ) (rest : List ℕ)
      → i ≤ total
      → j + length rest ≡ total
      → length rest < n
      → Moves n (object_id_of i node_part local_part j rest)
  unfolding object_id_of
  object_id_of-Moves i n node_part local_part j rest h k lt =
      parsed-Moves n i (parse_unsigned 16 (2 ^ 16 - 1) node_part) _ h (λ node.
        parsed-Moves n i (parse_unsigned 10 (2 ^ 64 - 1) local_part) _ h (λ local. (k, lt)))

  named-Moves :
      (n i : ℕ) (w rest : List ℕ) (o : Option (List ℕ))
      → i + length w + length rest ≡ total
      → length rest < n
      → Moves n (elim o [
        | none ↦ token (word w) (i + length w) rest
        | some stripped ↦ obj_literal i stripped (i + length w) rest
      ])
  unfolding obj_literal
  named-Moves n i w rest none h k = (h, k)
  named-Moves n i w rest (some s) h k =
      object_id_of-Moves i n _ _ (i + length w) rest (omega arith) h k

  word_of-Moves :
      (i n : ℕ) (w rest : List ℕ)
      → i + length w + length rest ≡ total
      → length rest + length w ≤ n
      → Moves n (word_of i w rest)
  unfolding word_of
  word_of-Moves i n [] rest h k = omega arith
  word_of-Moves i n (c ∷ w) rest h k =
      named-Moves n i (c ∷ w) rest (strip_prefix (codes "obj:") (c ∷ w)) h (omega arith)

  round-Moves :
      (i c : ℕ) (bs : List ℕ) → i + suc (length bs) ≡ total → Moves (suc (length bs)) (round i c bs)
  unfolding round at_literal word_literal
  round-Moves i c bs h = ground (
    arith,
    quoted-Moves (i + 1) [] bs,
    tag_id_of-Moves i (suc (length bs)) (take_while is_digit bs) (drop_while is_digit bs),
    word_of-Moves i (suc (length bs)) (take_while is_word_byte (c ∷ bs))
        (drop_while is_word_byte (c ∷ bs)),
    while_lengths is_digit bs,
    while_lengths is_word_byte (c ∷ bs),
  )

-- Tokens, or an error at a position up to `total`.
abbrev pub Settles : ℕ → Outcome (List Token) → Type 0
Settles total r =
    ((ts : List Token) × (r ≡ done ts)) ⊎ ((i : ℕ) × (r ≡ failed (parse_error i)) × (i ≤ total))

Settles-token :
    (total : ℕ) (t : Token) (r : Outcome (List Token))
    → Settles total r
    → Settles total (bind r λ ts. done (t ∷ ts))
Settles-token total t r (inl (ts, e)) = inl (t ∷ ts, rw e refl)
Settles-token total t r (inr (i, e, h)) = inr (i, rw e refl, h)

Settles-round :
    (total n fuel : ℕ) (r : Round)
    → ((j : ℕ) (rest : List ℕ)
        → j + length rest ≡ total
        → length rest < n
        → Settles total (tokenize_from fuel j rest))
    → Moves total n r
    → Settles total (elim r [
      | skip j rest ↦ tokenize_from fuel j rest
      | token t j rest ↦ bind (tokenize_from fuel j rest) (λ ts. done (t ∷ ts))
      | stop e ↦ failed e
    ])
Settles-round total n fuel (skip j rest) k m = k j rest m.0 m.1
Settles-round total n fuel (token t j rest) k m =
    Settles-token total t (tokenize_from fuel j rest) (k j rest m.0 m.1)
Settles-round total n fuel (stop (parse_error j)) k m = inr (j, refl, m)
Settles-round total n fuel (stop unsupported_cmp_op) k m = elim m [ ]
Settles-round total n fuel (stop (object_id_too_large local)) k m = elim m [ ]
Settles-round total n fuel (stop (unknown_tag name)) k m = elim m [ ]
Settles-round total n fuel (stop (unknown_op op)) k m = elim m [ ]

tokenize_from-Settles :
    (total fuel i : ℕ) (bs : List ℕ)
    → i + length bs ≡ total
    → length bs < fuel
    → Settles total (tokenize_from fuel i bs)
unfolding tokenize_from
tokenize_from-Settles total zero i bs h k = absurd (omega arith)
tokenize_from-Settles total (suc fuel) i [] h k = inl ([], refl)
tokenize_from-Settles total (suc fuel) i (c ∷ bs) h k =
    Settles-round total (suc (length bs)) fuel (round i c bs)
      (λ j rest at short. tokenize_from-Settles total fuel j rest at (omega arith))
      (round-Moves total i c bs h)

-- On every input the tokeniser returns tokens, or a parse error whose position is a byte offset
-- up to the input's length.
pub tokenize-Settles : (input : List ℕ) → Settles (length input) (tokenize input)
unfolding tokenize
tokenize-Settles input =
    tokenize_from-Settles (length input) (length input + 1) 0 input (omega arith) (omega arith)
