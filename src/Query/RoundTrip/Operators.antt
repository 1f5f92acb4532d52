-- ===== src/Query/RoundTrip/Operators.antt =====
-- Each operator of `crates/query/src/parser.rs`, printed, is parsed back if its arguments are.
use mimisbrunnr.Base.{
  ℕ, zero, suc, ◌+◌, ◌*◌, ◌^◌, ◌<◌, ◌≡◌, refl, true, false, List, [], ◌∷◌, ◌++◌, append_assoc,
  length, length-append, bytes_eq, Option, arith,
}
use mimisbrunnr.Types.ObjectId.{TagId, ObjectId}
use mimisbrunnr.Types.Value.{Value}
use mimisbrunnr.Types.Query.{
  CmpOp, Query, Queries, has_tag, has_attr, related, and_all, or_any, not_in, is_a, no_queries,
  query,
}
use mimisbrunnr.Query.Text.{codes, strip_prefix}
use mimisbrunnr.Query.Error.{done}
use mimisbrunnr.Query.Token.{Token, lparen, rparen, word, obj_id}
use mimisbrunnr.Query.Token.Lexes.{
  Lexes, Ends, IsName, Lexes-skip, Lexes-lparen, Lexes-rparen, Lexes-word, Lexes-obj,
}
use mimisbrunnr.Query.Print.{cmp_to_str, render, render_all}
use mimisbrunnr.Query.Print.Lexed.{IsName-cmp_to_str}
use mimisbrunnr.Query.Parse.{
  bump_tokens, expect_object, parse_args, parse_atom, parse_many, at_end, head_of,
}
use mimisbrunnr.Query.RoundTrip.Atoms.{
  cursor, NameReads, name_step, ValueReads, value_step, cmp_step, around,
}

-- The names of the operators are plain words.
abbrev Heads : Type 0
Heads =
    IsName (codes "tag")
    × IsName (codes "isa")
    × IsName (codes "attr")
    × IsName (codes "related")
    × IsName (codes "and")
    × IsName (codes "or")
    × IsName (codes "not")

heads : Heads
unfolding strip_prefix
heads = (
  record { plain = refl; no_at = refl; not_obj = refl },
  record { plain = refl; no_at = refl; not_obj = refl },
  record { plain = refl; no_at = refl; not_obj = refl },
  record { plain = refl; no_at = refl; not_obj = refl },
  record { plain = refl; no_at = refl; not_obj = refl },
  record { plain = refl; no_at = refl; not_obj = refl },
  record { plain = refl; no_at = refl; not_obj = refl },
)

module _ (show_f64 : ℕ → List ℕ) (parse_f64 : List ℕ → Option ℕ) (name_lookup : TagId → List ℕ)
    (resolver : List ℕ → Option TagId) where
  -- The tokens of a printed query, and that the parser takes them for it, whatever follows.
  pub record Reads (bs : List ℕ) (q : Query) : Type 0 where
    pub tokens : List Token
    pub lexes :
        (rest : List ℕ) (ts : List Token) → Lexes rest ts → Lexes (bs ++ rest) (tokens ++ ts)
    pub parses :
        (fuel pos : ℕ) (rest : List Token)
        → 2 * length tokens < fuel
        → (p : ℕ) × (parse_atom parse_f64 resolver fuel (cursor (tokens ++ rest) pos)
            ≡ done (q, cursor rest p))
    pub opens : (rest : List Token) → at_end (tokens ++ rest) ≡ false
    pub some_token : 0 < length tokens

  pub record ReadsAll (bs : List ℕ) (qs : Queries) : Type 0 where
    pub tokens : List Token
    pub lexes :
        (rest : List ℕ) (ts : List Token) → Lexes rest ts → Lexes (bs ++ rest) (tokens ++ ts)
    pub ends : (rest : List ℕ) → Ends rest → Ends (bs ++ rest)
    pub parses :
        (fuel pos : ℕ) (rest : List Token)
        → 2 * length tokens + 1 < fuel
        → at_end rest ≡ true
        → (p : ℕ) × (parse_many parse_f64 resolver fuel (cursor (tokens ++ rest) pos)
            ≡ done (qs, cursor rest p))

  -- An operator with the tokens of its arguments.
  closed :
      (bs : List ℕ) (w : List ℕ) (args : List Token) (q : Query)
      → ((rest : List ℕ) (ts : List Token)
          → Lexes rest ts
          → Lexes (bs ++ rest) (lparen ∷ word w ∷ (args ++ (rparen ∷ ts))))
      → ((fuel pos : ℕ) (rest : List Token)
          → 2 * length args + 3 < fuel
          → (p : ℕ) × (parse_args parse_f64 resolver
                (parse_atom parse_f64 resolver fuel)
                (parse_many parse_f64 resolver fuel)
                w
                (head_of w)
                (cursor (args ++ (rparen ∷ rest)) pos)
              ≡ done (q, cursor (rparen ∷ rest) p)))
      → Reads bs q
  unfolding at_end
  closed bs w args q l k = record {
    tokens = lparen ∷ word w ∷ (args ++ (rparen ∷ []));
    lexes = λ rest ts h. rw append_assoc (l rest ts h);
    parses = λ fuel pos rest h.
        taken fuel pos rest (omega (arith, length-append {0} args (rparen ∷ [])));
    opens = λ rest. refl;
    some_token = omega arith;
  }
    where
      taken :
          (fuel pos : ℕ) (rest : List Token)
          → 2 * length args + 5 < fuel
          → (p : ℕ) × (parse_atom parse_f64 resolver fuel
                (cursor ((lparen ∷ word w ∷ (args ++ (rparen ∷ []))) ++ rest) pos)
              ≡ done (q, cursor rest p))
      taken zero pos rest h = absurd (omega arith)
      taken (suc fuel) pos rest h =
          let (p, e) = k fuel (pos + 1 + 1) rest (omega arith) in
          (
            p + 1,
            rw append_assoc
                (around show_f64 parse_f64 name_lookup resolver w args rest q fuel pos p e),
          )

  abbrev pub printed : Query → List ℕ
  printed = render show_f64 name_lookup

  abbrev pub Named : TagId → Type 0
  Named = NameReads show_f64 parse_f64 name_lookup resolver

  pub tag-Reads : (t : TagId) → Named t → Reads (printed (has_tag t)) (has_tag t)
  unfolding render parse_args head_of bytes_eq
  tag-Reads t n =
      closed _ (codes "tag") (n.name_token ∷ []) (has_tag t)
        (λ rest ts l. simp append_assoc (
          Lexes-lparen _ _ (
            Lexes-word (codes "tag") _ _ heads.0 refl
              (Lexes-skip _ _ (n.lexes _ _ refl (Lexes-rparen _ _ l))))))
        (λ fuel pos rest h.
          (pos + 1, rw (name_step show_f64 parse_f64 name_lookup resolver t n (rparen ∷ rest) pos)))

  pub isa-Reads : (t : TagId) → Named t → Reads (printed (is_a t)) (is_a t)
  unfolding render parse_args head_of bytes_eq
  isa-Reads t n =
      closed _ (codes "isa") (n.name_token ∷ []) (is_a t)
        (λ rest ts l. simp append_assoc (
          Lexes-lparen _ _ (
            Lexes-word (codes "isa") _ _ heads.1 refl
              (Lexes-skip _ _ (n.lexes _ _ refl (Lexes-rparen _ _ l))))))
        (λ fuel pos rest h.
          (pos + 1, rw (name_step show_f64 parse_f64 name_lookup resolver t n (rparen ∷ rest) pos)))

  pub attr-Reads :
      (key : TagId) (op : CmpOp) (v back : Value)
      → Named key
      → ValueReads show_f64 parse_f64 name_lookup resolver v back
      → Reads (printed (has_attr key op v)) (has_attr key op back)
  unfolding render parse_args head_of bytes_eq
  attr-Reads key op v back n r =
      closed _ (codes "attr") (n.name_token ∷ word (cmp_to_str op) ∷ r.value_token ∷ [])
        (has_attr key op back)
        (λ rest ts l. simp append_assoc (
          Lexes-lparen _ _ (
            Lexes-word (codes "attr") _ _ heads.2 refl (
              Lexes-skip _ _ (
                n.lexes _ _ refl (
                  Lexes-skip _ _ (
                    Lexes-word (cmp_to_str op) _ _ (IsName-cmp_to_str op) refl
                      (Lexes-skip _ _ (r.lexes _ _ refl (Lexes-rparen _ _ l))))))))))
        (λ fuel pos rest h. (
          pos + 1 + 1 + 1,
          rw
              (name_step show_f64 parse_f64 name_lookup resolver key n
                (word (cmp_to_str op) ∷ r.value_token ∷ rparen ∷ rest) pos)
              (rw
                (cmp_step show_f64 parse_f64 name_lookup resolver op (r.value_token ∷ rparen ∷ rest)
                  (pos + 1))
                (rw (
                  value_step show_f64 parse_f64 name_lookup resolver v back r (rparen ∷ rest)
                    (pos + 1 + 1)))),
        ))

  pub related-Reads :
      (predicate : TagId) (target : ObjectId)
      → Named predicate
      → target < 2 ^ 64
      → Reads (printed (related predicate target)) (related predicate target)
  unfolding render parse_args head_of bytes_eq expect_object bump_tokens
  related-Reads predicate target n small =
      closed _ (codes "related") (n.name_token ∷ obj_id target ∷ []) (related predicate target)
        (λ rest ts l. simp append_assoc (
          Lexes-lparen _ _ (
            Lexes-word (codes "related") _ _ heads.3 refl (
              Lexes-skip _ _ (
                n.lexes _ _ refl (
                  Lexes-skip _ _ (
                    simp append_assoc at
                      (Lexes-obj target _ _ small refl (Lexes-rparen _ _ l)))))))))
        (λ fuel pos rest h. (
          pos + 1 + 1,
          rw (
              name_step show_f64 parse_f64 name_lookup resolver predicate n
                (obj_id target ∷ rparen ∷ rest) pos),
        ))

  pub not-Reads : (q : Query) → Reads (printed q) q → Reads (printed (not_in q)) (not_in q)
  unfolding render parse_args head_of bytes_eq
  not-Reads q r =
      closed _ (codes "not") r.tokens (not_in q)
        (λ rest ts l. simp append_assoc (
          Lexes-lparen _ _ (
            Lexes-word (codes "not") _ _ heads.6 refl
              (Lexes-skip _ _ (r.lexes _ _ (Lexes-rparen _ _ l))))))
        (λ fuel pos rest h.
          let (p, e) = r.parses fuel pos (rparen ∷ rest) (omega arith) in (p, rw e))

  abbrev pub printed_all : Queries → List ℕ
  printed_all = render_all show_f64 name_lookup

  pub and_Reads :
      (qs : Queries) → ReadsAll (printed_all qs) qs → Reads (printed (and_all qs)) (and_all qs)
  unfolding render parse_args head_of bytes_eq at_end
  and_Reads qs r =
      closed _ (codes "and") r.tokens (and_all qs)
        (λ rest ts l. simp append_assoc (
          Lexes-lparen _ _ (
            Lexes-word (codes "and") _ _ heads.4 (r.ends _ refl)
              (r.lexes _ _ (Lexes-rparen _ _ l)))))
        (λ fuel pos rest h.
          let (p, e) = r.parses fuel pos (rparen ∷ rest) (omega arith) refl in (p, rw e))

  pub or_Reads :
      (qs : Queries) → ReadsAll (printed_all qs) qs → Reads (printed (or_any qs)) (or_any qs)
  unfolding render parse_args head_of bytes_eq at_end
  or_Reads qs r =
      closed _ (codes "or") r.tokens (or_any qs)
        (λ rest ts l. simp append_assoc (
          Lexes-lparen _ _ (
            Lexes-word (codes "or") _ _ heads.5 (r.ends _ refl)
              (r.lexes _ _ (Lexes-rparen _ _ l)))))
        (λ fuel pos rest h.
          let (p, e) = r.parses fuel pos (rparen ∷ rest) (omega arith) refl in (p, rw e))

  pub none_read : ReadsAll (printed_all no_queries) no_queries
  unfolding render_all parse_many
  none_read = record {
    tokens = [];
    lexes = λ rest ts l. l;
    ends = λ rest e. e;
    parses = λ fuel pos rest h stop. at_once fuel pos rest h stop;
  }
    where
      at_once :
          (fuel pos : ℕ) (rest : List Token)
          → 1 < fuel
          → at_end rest ≡ true
          → (p : ℕ) × (parse_many parse_f64 resolver fuel (cursor rest pos)
              ≡ done (no_queries, cursor rest p))
      at_once zero pos rest h stop = absurd (omega arith)
      at_once (suc fuel) pos rest h stop = (pos, rw (stop, parse_many) refl)

  pub query-Reads :
      (q : Query) (qs : Queries)
      → Reads (printed q) q
      → ReadsAll (printed_all qs) qs
      → ReadsAll (printed_all (query q qs)) (query q qs)
  unfolding render_all parse_many
  query-Reads q qs r rs = record {
    tokens = r.tokens ++ rs.tokens;
    lexes = λ rest ts l. simp append_assoc (Lexes-skip _ _ (r.lexes _ _ (rs.lexes _ _ l)));
    ends = λ rest e. refl;
    parses = λ fuel pos rest h stop.
        one_more fuel pos rest (omega (arith, length-append {0} r.tokens rs.tokens)) stop;
  }
    where
      one_more :
          (fuel pos : ℕ) (rest : List Token)
          → 2 * length r.tokens + 2 * length rs.tokens + 1 < fuel
          → at_end rest ≡ true
          → (p : ℕ) × (parse_many parse_f64 resolver fuel
                (cursor ((r.tokens ++ rs.tokens) ++ rest) pos)
              ≡ done (query q qs, cursor rest p))
      one_more zero pos rest h stop = absurd (omega arith)
      one_more (suc fuel) pos rest h stop =
          let (p, e) = r.parses fuel pos (rs.tokens ++ rest) (omega arith) in
          let (p', e') = rs.parses fuel p rest (omega (arith, r.some_token)) stop in
          (p', rw append_assoc (rw (r.opens (rs.tokens ++ rest), parse_many) (rw e (rw e'))))
