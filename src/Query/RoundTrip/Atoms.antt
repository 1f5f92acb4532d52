-- ===== src/Query/RoundTrip/Atoms.antt =====
-- How the parser of `crates/query/src/parser.rs` takes the tokens of each operator.
use mimisbrunnr.Base.{
  ℕ, suc, ◌+◌, ◌^◌, ◌<◌, ◌≡◌, refl, ap, ◌⊎◌, inl, inr, List, ◌∷◌, ◌++◌, append_assoc, bytes_eq,
  Option, some, arith,
}
use mimisbrunnr.Base.Int.{ℤ, IsI64}
use mimisbrunnr.Types.ObjectId.{TagId}
use mimisbrunnr.Types.Value.{Value, text, int}
use mimisbrunnr.Types.Query.{CmpOp, eq_op, Query}
use mimisbrunnr.Query.Text.{decimal, int_text, parse_i64}
use mimisbrunnr.Query.Text.Laws.{parse_i64-int_text}
use mimisbrunnr.Query.Error.{done}
use mimisbrunnr.Query.Token.{Token, lparen, rparen, word, str, at_id, same}
use mimisbrunnr.Query.Token.Lexes.{Lexes, Ends, IsName, Lexes-word, Lexes-at}
use mimisbrunnr.Query.Print.{cmp_to_str, push_value}
use mimisbrunnr.Query.Print.Lexed.{reread, Lexes-str, IsName-int_text}
use mimisbrunnr.Query.Parse.{
  Cursor, deliver, bump_tokens, expect, expect_word, taken_value, taken_name, parse_cmp, head_of,
  word_value, parse_value, resolve, parse_name_as_tag, parse_args, parse_atom, parse_many,
}

abbrev pub cursor : List Token → ℕ → Cursor
cursor ts pos = record { rest = ts; pos = pos }

module _ (show_f64 : ℕ → List ℕ) (parse_f64 : List ℕ → Option ℕ) (name_lookup : TagId → List ℕ)
    (resolver : List ℕ → Option TagId) where
  -- A printed name, and the token for which the parser takes the tag.
  pub record NameReads (t : TagId) : Type 0 where
    pub name_token : Token
    pub lexes :
        (rest : List ℕ) (ts : List Token)
        → Ends rest
        → Lexes rest ts
        → Lexes (name_lookup t ++ rest) (name_token ∷ ts)
    pub taken : taken_name parse_f64 resolver name_token ≡ some (done t)

  -- The tag has a name of its own, to which the resolver answers, or is printed as `@<raw>`.
  abbrev pub IsNamed : TagId → Type 0
  IsNamed t =
      (IsName (name_lookup t) × (resolver (name_lookup t) ≡ some t))
      ⊎ ((name_lookup t ≡ b'@' ∷ decimal t) × (t < 2 ^ 32))

  resolve_known :
      (w : List ℕ) (t : TagId) → resolver w ≡ some t → resolve parse_f64 resolver w ≡ done t
  unfolding resolve
  resolve_known w t h = ground arith

  word_value_int : (w : List ℕ) (v : ℤ) → parse_i64 w ≡ some v → word_value parse_f64 w ≡ int v
  unfolding word_value
  word_value_int w v h = ground arith

  pub name_reads : (t : TagId) → IsNamed t → NameReads t
  unfolding taken_name
  name_reads t (inl (name, known)) = record {
    name_token = word (name_lookup t);
    lexes = λ rest ts e l. Lexes-word (name_lookup t) rest ts name e l;
    taken = ap some (resolve_known (name_lookup t) t known);
  }
  name_reads t (inr (shown, small)) = record {
    name_token = at_id t;
    lexes = λ rest ts e l. rw shown (Lexes-at t rest ts small e l);
    taken = refl;
  }

  pub name_step :
      (t : TagId) (n : NameReads t) (ts : List Token) (pos : ℕ)
      → parse_name_as_tag parse_f64 resolver (cursor (n.name_token ∷ ts) pos)
        ≡ done (t, cursor ts (pos + 1))
  unfolding parse_name_as_tag bump_tokens
  name_step t n ts pos = ap (λ o. deliver o ts pos) n.taken

  -- A printed value, and the token that is taken for `back`.
  pub record ValueReads (v back : Value) : Type 0 where
    pub value_token : Token
    pub lexes :
        (rest : List ℕ) (ts : List Token)
        → Ends rest
        → Lexes rest ts
        → Lexes (push_value show_f64 v ++ rest) (value_token ∷ ts)
    pub taken : taken_value parse_f64 value_token ≡ some (done back)

  pub int_reads : (v : ℤ) → IsI64 v → ValueReads (int v) (int v)
  unfolding push_value taken_value
  int_reads v h = record {
    value_token = word (int_text v);
    lexes = λ rest ts e l. Lexes-word (int_text v) rest ts (IsName-int_text v) e l;
    taken = ap (λ x. some (done x)) (word_value_int (int_text v) v (parse_i64-int_text v h));
  }

  pub text_reads : (s : List ℕ) → ValueReads (text s) (text (reread s))
  unfolding push_value taken_value
  text_reads s = record {
    value_token = str (reread s);
    lexes = λ rest ts e l. rw append_assoc (Lexes-str s rest ts l);
    taken = refl;
  }

  pub value_step :
      (v back : Value) (r : ValueReads v back) (ts : List Token) (pos : ℕ)
      → parse_value parse_f64 (cursor (r.value_token ∷ ts) pos) ≡ done (back, cursor ts (pos + 1))
  unfolding parse_value bump_tokens
  value_step v back r ts pos = ap (λ o. deliver o ts pos) r.taken

  pub cmp_step :
      (op : CmpOp) (ts : List Token) (pos : ℕ)
      → parse_cmp (cursor (word (cmp_to_str op) ∷ ts) pos) ≡ done (op, cursor ts (pos + 1))
  unfolding parse_cmp bump_tokens bytes_eq
  cmp_step eq_op ts pos = refl
  cmp_step _ ts pos = refl

  -- The parentheses and the operator around the arguments.
  pub around :
      (w : List ℕ) (args rest : List Token) (q : Query) (fuel pos p : ℕ)
      → parse_args parse_f64 resolver
          (parse_atom parse_f64 resolver fuel)
          (parse_many parse_f64 resolver fuel)
          w
          (head_of w)
          (cursor (args ++ (rparen ∷ rest)) (pos + 1 + 1))
        ≡ done (q, cursor (rparen ∷ rest) p)
      → parse_atom parse_f64 resolver
          (suc fuel)
          (cursor (lparen ∷ word w ∷ (args ++ (rparen ∷ rest))) pos)
        ≡ done (q, cursor rest (p + 1))
  unfolding parse_atom expect expect_word bump_tokens same
  around w args rest q fuel pos p h = rw h
