-- ===== src/Query/Parse.antt =====
-- The recursive-descent parser of `crates/query/src/parser.rs`. A cursor is the tokens from its position
-- on, and the position. `resolver` is the caller's, and `parse_f64` the standard library's.
pub mod Total
use mimisbrunnr.Base.{
  ℕ, zero, suc, ◌+◌, ◌*◌, Bool, true, false, List, [], ◌∷◌, length, Option, none, some,
  if◌then◌else◌, bytes_eq,
}
use mimisbrunnr.Types.ObjectId.{TagId, ObjectId}
use mimisbrunnr.Types.Value.{Value, text, int, float}
use mimisbrunnr.Types.Query.{
  CmpOp, eq_op, ne_op, lt_op, le_op, gt_op, ge_op, prefix, contains, Query, Queries, has_tag,
  has_attr, related, and_all, or_any, not_in, is_a, no_queries, query,
}
use mimisbrunnr.Query.Text.{codes, parse_i64}
use mimisbrunnr.Query.Error.{
  QueryError, parse_error, unknown_tag, unknown_op, Outcome, done, failed, out_of_fuel, bind,
}
use mimisbrunnr.Query.Token.{Token, lparen, rparen, word, str, at_id, obj_id, same, tokenize}

pub record Cursor : Type 0 where
  pub rest : List Token
  pub pos : ℕ

abbrev pub new_cursor : List Token → Cursor
new_cursor tokens = record { rest = tokens; pos = 0 }

abbrev pub Parser : Type 0 → Type 0
Parser A = Cursor → Outcome (A × Cursor)

infixl 1 ◌>>=◌ ◌>>◌
abbrev pub ◌>>=◌ : {A B : Type 0} → Parser A → (A → Parser B) → Parser B
p >>= f = λ c. bind (p c) λ (a, c'). f a c'

abbrev pub ◌>>◌ : {A B : Type 0} → Parser A → Parser B → Parser B
p >> q = p >>= λ _. q

abbrev pub pure : {A : Type 0} → A → Parser A
pure a c = done (a, c)

-- What a caller makes of the token at `pos`, with the cursor behind it: an error there for a token that it
-- does not take.
abbrev pub deliver : {A : Type 0} → Option (Outcome A) → List Token → ℕ → Outcome (A × Cursor)
deliver none rest pos = failed (parse_error pos)
deliver (some o) rest pos = bind o (λ a. done (a, record { rest = rest; pos = pos + 1 }))

-- `bump` and the match on its result. At the end of the tokens every caller fails.
unfoldable pub bump_tokens :
    {A : Type 0} → (Token → Option (Outcome A)) → List Token → ℕ → Outcome (A × Cursor)
bump_tokens f [] pos = failed (parse_error pos)
bump_tokens f (t ∷ rest) pos = deliver (f t) rest pos

unfoldable pub bump : {A : Type 0} → (Token → Option (Outcome A)) → Parser A
unfolding bump_tokens
bump f c = bump_tokens f c.rest c.pos

unfoldable pub expect : Token → Parser (Unit {0})
unfolding bump
expect want = bump (λ t. if same t want then some (done tt) else none)

unfoldable pub taken_word : Token → Option (Outcome (List ℕ))
taken_word (word w) = some (done w)
taken_word _ = none

-- The word at the cursor: an operator's name, or a comparison.
unfoldable pub expect_word : Parser (List ℕ)
unfolding bump taken_word
expect_word = bump taken_word

unfoldable pub taken_object : Token → Option (Outcome ObjectId)
taken_object (obj_id id) = some (done id)
taken_object _ = none

unfoldable pub expect_object : Parser ObjectId
unfolding bump taken_object
expect_object = bump taken_object

unfoldable pub cmp_of : List ℕ → Outcome CmpOp
cmp_of w =
    if bytes_eq w (codes "=")
    then done eq_op
    else if bytes_eq w (codes "!=")
    then done ne_op
    else if bytes_eq w (codes "<")
    then done lt_op
    else if bytes_eq w (codes "<=")
    then done le_op
    else if bytes_eq w (codes ">")
    then done gt_op
    else if bytes_eq w (codes ">=")
    then done ge_op
    else if bytes_eq w (codes "prefix")
    then done prefix
    else if bytes_eq w (codes "contains")
    then done contains
    else failed (unknown_op w)

unfoldable pub parse_cmp : Parser CmpOp
unfolding expect_word cmp_of
parse_cmp c = bind (expect_word c) λ (w, c'). bind (cmp_of w) λ op. done (op, c')

-- The operator that a name stands for.
pub data Head : Type 0 where
  tag isa attr rel and or not other : Head

unfoldable pub head_of : List ℕ → Head
head_of w =
    if bytes_eq w (codes "tag")
    then tag
    else if bytes_eq w (codes "isa")
    then isa
    else if bytes_eq w (codes "attr")
    then attr
    else if bytes_eq w (codes "related")
    then rel
    else if bytes_eq w (codes "and")
    then and
    else if bytes_eq w (codes "or")
    then or
    else if bytes_eq w (codes "not")
    then not
    else other

-- `matches!(cursor.peek(), Some(Token::RParen) | None)`
unfoldable pub at_end : List Token → Bool
at_end [] = true
at_end (rparen ∷ _) = true
at_end (_ ∷ _) = false

module _ (parse_f64 : List ℕ → Option ℕ) where
  unfoldable pub word_value : List ℕ → Value
  word_value w = elim (parse_i64 w) [
    | some i ↦ int i
    | none ↦ elim (parse_f64 w) [ some f ↦ float f | none ↦ text w ]
  ]

  unfoldable pub taken_value : Token → Option (Outcome Value)
  unfolding word_value
  taken_value (str s) = some (done (text s))
  taken_value (word w) = some (done (word_value w))
  taken_value _ = none

  unfoldable pub parse_value : Parser Value
  unfolding bump taken_value
  parse_value = bump taken_value

  module _ (resolver : List ℕ → Option TagId) where
    unfoldable pub resolve : List ℕ → Outcome TagId
    resolve w = elim (resolver w) [ some t ↦ done t | none ↦ failed (unknown_tag w) ]

    unfoldable pub taken_name : Token → Option (Outcome TagId)
    unfolding resolve
    taken_name (word w) = some (resolve w)
    taken_name (at_id raw) = some (done raw)
    taken_name _ = none

    unfoldable pub parse_name_as_tag : Parser TagId
    unfolding bump taken_name
    parse_name_as_tag = bump taken_name

    -- The arguments of each operator, over the parsers of a query and of the queries up to a parenthesis.
    unfoldable pub parse_args : Parser Query → Parser Queries → List ℕ → Head → Parser Query
    parse_args atom many w tag = do t ← parse_name_as_tag; pure (has_tag t)
    parse_args atom many w isa = do t ← parse_name_as_tag; pure (is_a t)
    parse_args atom many w attr = do
      key ← parse_name_as_tag
      op ← parse_cmp
      value ← parse_value
      pure (has_attr key op value)
    parse_args atom many w rel = do
      predicate ← parse_name_as_tag
      target ← expect_object
      pure (related predicate target)
    parse_args atom many w and = do qs ← many; pure (and_all qs)
    parse_args atom many w or = do qs ← many; pure (or_any qs)
    parse_args atom many w not = do q ← atom; pure (not_in q)
    parse_args atom many w other = λ c. failed (unknown_op w)

    unfoldable mutual
      pub parse_atom : ℕ → Parser Query
      parse_atom zero c = out_of_fuel
      parse_atom (suc fuel) c =
          (do
            expect lparen
            head ← expect_word
            q ← parse_args (parse_atom fuel) (parse_many fuel) head (head_of head)
            expect rparen
            pure q)
            c

      -- The loops of `and` and `or`.
      pub parse_many : ℕ → Parser Queries
      parse_many zero c = out_of_fuel
      parse_many (suc fuel) c = elim (at_end c.rest) [
        | true ↦ done (no_queries, c)
        | false ↦ (do q ← parse_atom fuel; qs ← parse_many fuel; pure (query q qs)) c
      ]

    -- Nothing may be left behind the query.
    unfoldable pub finish : Query → Cursor → Outcome Query
    finish q c = elim c.rest [ [] ↦ done q | _ ∷ _ ↦ failed (parse_error c.pos) ]

    unfoldable pub parse_tokens : List Token → Outcome Query
    unfolding finish
    parse_tokens tokens =
        bind (parse_atom (2 * length tokens + 1) (new_cursor tokens)) λ (q, c). finish q c

    unfoldable pub parse : List ℕ → Outcome Query
    parse input = bind (tokenize input) parse_tokens
