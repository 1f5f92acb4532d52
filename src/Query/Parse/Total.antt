-- ===== src/Query/Parse/Total.antt =====
-- The parser and the tokeniser of `crates/query/src/parser.rs` end on every input.
use mimisbrunnr.Base.{
  ℕ, zero, suc, ◌+◌, ◌*◌, ◌<◌, ◌≢◌, refl, Bool, true, false, List, [], ◌∷◌, length, Option, none,
  some, inl, inr, arith, if◌then◌else◌,
}
use mimisbrunnr.Types.ObjectId.{TagId}
use mimisbrunnr.Types.Query.{CmpOp, Query, Queries, no_queries}
use mimisbrunnr.Query.Error.{unknown_tag, Outcome, done, failed, out_of_fuel, bind}
use mimisbrunnr.Query.Token.Total.{tokenize-Settles}
use mimisbrunnr.Query.Token.{Token, lparen, rparen, word, str, at_id, obj_id, same}
use mimisbrunnr.Query.Parse.{
  Cursor, new_cursor, Parser, deliver, bump_tokens, expect, expect_word, expect_object, taken_word,
  taken_object, taken_value, taken_name, cmp_of, parse_cmp, Head, tag, isa, attr, rel, and, or, not,
  other, head_of, at_end, parse_value, resolve, parse_name_as_tag, parse_args, parse_atom,
  parse_many, finish, parse_tokens, parse,
}

-- The run has an end, and where it succeeds it leaves fewer than `n` tokens.
abbrev Shrinks : {A : Type 0} → ℕ → Outcome (A × Cursor) → Type 0
Shrinks n (done (a, c)) = length c.rest < n
Shrinks n (failed e) = Unit {0}
Shrinks n out_of_fuel = ⊥

Shrinks-bind :
    {A B : Type 0} {n : ℕ} (m : ℕ) (r : Outcome (A × Cursor)) (f : A → Parser B)
    → Shrinks n r
    → ((a : A) (c : Cursor) → length c.rest < n → Shrinks m (f a c))
    → Shrinks m (bind r λ (a, c). f a c)
Shrinks-bind m (done (a, c)) f h k = k a c h
Shrinks-bind m (failed e) f h k = tt
Shrinks-bind m out_of_fuel f h k = h

abbrev Ends : {A : Type 0} → Option (Outcome A) → Type 0
Ends (some out_of_fuel) = ⊥
Ends _ = Unit {0}

deliver-Shrinks :
    {A : Type 0} (o : Option (Outcome A)) (ts : List Token) (pos : ℕ)
    → Ends o
    → Shrinks (suc (length ts)) (deliver o ts pos)
deliver-Shrinks none ts pos h = tt
deliver-Shrinks (some (done a)) ts pos h = omega arith
deliver-Shrinks (some (failed x)) ts pos h = tt
deliver-Shrinks (some out_of_fuel) ts pos h = h

bump-Shrinks :
    {A : Type 0} (f : Token → Option (Outcome A)) (ts : List Token) (pos : ℕ)
    → ((t : Token) → Ends (f t))
    → Shrinks (length ts) (bump_tokens f ts pos)
unfolding bump_tokens
bump-Shrinks f [] pos e = tt
bump-Shrinks f (t ∷ ts) pos e = deliver-Shrinks (f t) ts pos (e t)

Ends-if : (b : Bool) → Ends (if b then some (done tt) else none)
Ends-if true = tt
Ends-if false = tt

expect-Shrinks : (want : Token) (c : Cursor) → Shrinks (length c.rest) (expect want c)
unfolding expect
expect-Shrinks want c = bump-Shrinks _ c.rest c.pos λ t. Ends-if (same t want)

taken_word-Ends : (t : Token) → Ends (taken_word t)
unfolding taken_word
taken_word-Ends (word w) = tt
taken_word-Ends _ = tt

taken_object-Ends : (t : Token) → Ends (taken_object t)
unfolding taken_object
taken_object-Ends (obj_id i) = tt
taken_object-Ends _ = tt

expect_word-Shrinks : (c : Cursor) → Shrinks (length c.rest) (expect_word c)
unfolding expect_word
expect_word-Shrinks c = bump-Shrinks taken_word c.rest c.pos taken_word-Ends

expect_object-Shrinks : (c : Cursor) → Shrinks (length c.rest) (expect_object c)
unfolding expect_object
expect_object-Shrinks c = bump-Shrinks taken_object c.rest c.pos taken_object-Ends

cmp_of-ne-out_of_fuel : (w : List ℕ) → cmp_of w ≢ out_of_fuel
unfolding cmp_of
cmp_of-ne-out_of_fuel w e = ground arith

parse_cmp-Shrinks : (c : Cursor) → Shrinks (length c.rest) (parse_cmp c)
unfolding parse_cmp
parse_cmp-Shrinks c =
    Shrinks-bind (length c.rest) (expect_word c) _ (expect_word-Shrinks c)
      λ w c' h. kept w c' h (cmp_of w) (cmp_of-ne-out_of_fuel w)
  where
    kept :
        (w : List ℕ) (c' : Cursor)
        → length c'.rest < length c.rest
        → (o : Outcome CmpOp) → o ≢ out_of_fuel
        → Shrinks (length c.rest) (bind o λ op. done (op, c'))
    kept w c' h (done op) k = h
    kept w c' h (failed e) k = tt
    kept w c' h out_of_fuel k = k refl

Shrinks-branch :
    {A : Type 0} (n : ℕ) (b : Bool) (x y : Outcome (A × Cursor))
    → Shrinks n x
    → Shrinks n y
    → Shrinks n (elim b [ true ↦ x | false ↦ y ])
Shrinks-branch n true x y h k = h
Shrinks-branch n false x y h k = k

module _ (parse_f64 : List ℕ → Option ℕ) where
  taken_value-Ends : (t : Token) → Ends (taken_value parse_f64 t)
  unfolding taken_value
  taken_value-Ends (str s) = tt
  taken_value-Ends (word w) = tt
  taken_value-Ends _ = tt

  parse_value-Shrinks : (c : Cursor) → Shrinks (length c.rest) (parse_value parse_f64 c)
  unfolding parse_value
  parse_value-Shrinks c = bump-Shrinks (taken_value parse_f64) c.rest c.pos taken_value-Ends

  module _ (resolver : List ℕ → Option TagId) where
    resolve-Ends : (w : List ℕ) → Ends (some (resolve parse_f64 resolver w))
    unfolding resolve
    resolve-Ends w = found (resolver w)
      where
        found :
            (o : Option TagId)
            → Ends (some (elim o [ some t ↦ done t | none ↦ failed (unknown_tag w) ]))
        found (some t) = tt
        found none = tt

    taken_name-Ends : (t : Token) → Ends (taken_name parse_f64 resolver t)
    unfolding taken_name
    taken_name-Ends (word w) = resolve-Ends w
    taken_name-Ends (at_id i) = tt
    taken_name-Ends _ = tt

    name-Shrinks : (c : Cursor) → Shrinks (length c.rest) (parse_name_as_tag parse_f64 resolver c)
    unfolding parse_name_as_tag
    name-Shrinks c = bump-Shrinks (taken_name parse_f64 resolver) c.rest c.pos taken_name-Ends

    module _ (atom : Parser Query) (many : Parser Queries) (n : ℕ)
        (atom_shrinks : (c : Cursor) → length c.rest < n → Shrinks (length c.rest) (atom c))
        (many_shrinks : (c : Cursor) → length c.rest < n → Shrinks (suc (length c.rest)) (many c))
        (w : List ℕ) where
      args-Shrinks :
          (h : Head) (c : Cursor)
          → length c.rest < n
          → Shrinks (suc (length c.rest)) (parse_args parse_f64 resolver atom many w h c)
      unfolding parse_args
      args-Shrinks tag c k =
          Shrinks-bind _ (parse_name_as_tag parse_f64 resolver c) _ (name-Shrinks c)
            λ t c' h. omega arith
      args-Shrinks isa c k =
          Shrinks-bind _ (parse_name_as_tag parse_f64 resolver c) _ (name-Shrinks c)
            λ t c' h. omega arith
      args-Shrinks attr c k =
          Shrinks-bind _ (parse_name_as_tag parse_f64 resolver c) _ (name-Shrinks c) λ t c1 h1.
            Shrinks-bind _ (parse_cmp c1) _ (parse_cmp-Shrinks c1) λ op c2 h2.
              Shrinks-bind _ (parse_value parse_f64 c2) _ (parse_value-Shrinks c2)
                λ v c3 h3. omega arith
      args-Shrinks rel c k =
          Shrinks-bind _ (parse_name_as_tag parse_f64 resolver c) _ (name-Shrinks c) λ t c1 h1.
            Shrinks-bind _ (expect_object c1) _ (expect_object-Shrinks c1) λ o c2 h2. omega arith
      args-Shrinks and c k = Shrinks-bind _ (many c) _ (many_shrinks c k) λ qs c' h. h
      args-Shrinks or c k = Shrinks-bind _ (many c) _ (many_shrinks c k) λ qs c' h. h
      args-Shrinks not c k = Shrinks-bind _ (atom c) _ (atom_shrinks c k) λ q c' h. omega arith
      args-Shrinks other c k = tt

    mutual
      unfolding parse_atom parse_many

      atom-Shrinks :
          (fuel : ℕ) (c : Cursor)
          → 2 * length c.rest < fuel
          → Shrinks (length c.rest) (parse_atom parse_f64 resolver fuel c)
      atom-Shrinks zero c h = absurd (omega arith)
      atom-Shrinks (suc fuel) c h =
          Shrinks-bind _ (expect lparen c) _ (expect-Shrinks lparen c) λ _ c1 h1.
            Shrinks-bind _ (expect_word c1) _ (expect_word-Shrinks c1) λ w c2 h2.
              Shrinks-bind _
                (parse_args parse_f64 resolver (parse_atom parse_f64 resolver fuel)
                  (parse_many parse_f64 resolver fuel) w (head_of w) c2)
                _
                (args-Shrinks (parse_atom parse_f64 resolver fuel)
                  (parse_many parse_f64 resolver fuel) (suc (length c2.rest))
                  (λ c' k. atom-Shrinks fuel c' (omega arith))
                  (λ c' k. many-Shrinks fuel c' (omega arith)) w (head_of w) c2 (omega arith))
                λ q c3 h3.
                  Shrinks-bind _ (expect rparen c3) _ (expect-Shrinks rparen c3)
                    λ _ c4 h4. omega arith

      many-Shrinks :
          (fuel : ℕ) (c : Cursor)
          → 2 * length c.rest + 1 < fuel
          → Shrinks (suc (length c.rest)) (parse_many parse_f64 resolver fuel c)
      many-Shrinks zero c h = absurd (omega arith)
      many-Shrinks (suc fuel) c h =
          Shrinks-branch _ (at_end c.rest) (done (no_queries, c)) _ (omega arith) (
            Shrinks-bind _ (parse_atom parse_f64 resolver fuel c) _
              (atom-Shrinks fuel c (omega arith))
              λ q c1 h1.
                Shrinks-bind _ (parse_many parse_f64 resolver fuel c1) _
                  (many-Shrinks fuel c1 (omega arith)) λ qs c2 h2. omega arith)

    finish-ne-out_of_fuel :
        (q : Query) (ts : List Token) (pos : ℕ)
        → finish parse_f64 resolver q (record { rest = ts; pos = pos }) ≢ out_of_fuel
    unfolding finish
    finish-ne-out_of_fuel q [] pos e = cc
    finish-ne-out_of_fuel q (t ∷ ts) pos e = cc

    parse_tokens-ne-out_of_fuel :
        (ts : List Token) → parse_tokens parse_f64 resolver ts ≢ out_of_fuel
    unfolding parse_tokens
    parse_tokens-ne-out_of_fuel ts =
        finished (parse_atom parse_f64 resolver (2 * length ts + 1) (new_cursor ts))
          (atom-Shrinks (2 * length ts + 1) (new_cursor ts) (omega arith))
      where
        finished :
            (o : Outcome (Query × Cursor))
            → Shrinks (length ts) o
            → bind o (λ (q, c). finish parse_f64 resolver q c) ≢ out_of_fuel
        finished (done (q, c)) h = finish-ne-out_of_fuel q c.rest c.pos
        finished (failed e) h = λ p. cc
        finished out_of_fuel h = elim h [ ]

    -- parse returns on every input: the fuel of the model never runs out.
    pub parse-ne-out_of_fuel : (input : List ℕ) → parse parse_f64 resolver input ≢ out_of_fuel
    unfolding parse
    parse-ne-out_of_fuel input = elim (tokenize-Settles input) [
      | inl (ts, e) ↦ rw e (parse_tokens-ne-out_of_fuel ts)
      | inr (i, e, h) ↦ rw e (λ p. cc)
    ]
