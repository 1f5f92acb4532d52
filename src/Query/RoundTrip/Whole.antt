-- ===== src/Query/RoundTrip/Whole.antt =====
-- A printed query of `crates/query/src/parser.rs` is parsed back, by induction on the query.
use mimisbrunnr.Base.{
  ℕ, ◌+◌, ◌*◌, ◌^◌, ◌<◌, ◌≡◌, refl, subst, true, false, List, [], ◌++◌, append-nil, length, Option,
  ltb, arith,
}
use mimisbrunnr.Base.Int.{IsI64}
use mimisbrunnr.Types.ObjectId.{TagId}
use mimisbrunnr.Types.Value.{Value, text, int, float, timestamp, blob, scoped}
use mimisbrunnr.Types.Query.{
  CmpOp, Query, Queries, has_tag, has_attr, related, and_all, or_any, not_in, is_a, no_queries,
  query,
}
use mimisbrunnr.Query.Text.Laws.{all}
use mimisbrunnr.Query.Error.{done}
use mimisbrunnr.Query.Token.{tokenize}
use mimisbrunnr.Query.Token.Lexes.{Lexes-nil}
use mimisbrunnr.Query.Print.{to_sexpr}
use mimisbrunnr.Query.Print.Lexed.{reread, reread_ascii, length-reread_high}
use mimisbrunnr.Query.Parse.{finish, parse_tokens, parse}
use mimisbrunnr.Query.RoundTrip.Atoms.{IsNamed, name_reads, ValueReads, int_reads, text_reads}
use mimisbrunnr.Query.RoundTrip.Operators.{
  Reads, ReadsAll, Named, printed, printed_all, tag-Reads, isa-Reads, attr-Reads, related-Reads,
  and_Reads, or_Reads, not-Reads, none_read, query-Reads,
}

module _ (show_f64 : ℕ → List ℕ) (parse_f64 : List ℕ → Option ℕ) (name_lookup : TagId → List ℕ)
    (resolver : List ℕ → Option TagId) where
  -- The values that are printed show_f64 parse_f64 name_lookup resolver so that they can be read back.
  abbrev IsPlainValue : Value → Type 0
  IsPlainValue (int v) = IsI64 v
  IsPlainValue (text s) = all (λ b. ltb b 128) s ≡ true
  IsPlainValue _ = ⊥

  value_reads :
      (v : Value) → IsPlainValue v → ValueReads show_f64 parse_f64 name_lookup resolver v v
  value_reads (int v) h = int_reads show_f64 parse_f64 name_lookup resolver v h
  value_reads (text s) h =
      subst (λ back. ValueReads show_f64 parse_f64 name_lookup resolver (text s) (text back))
        (reread_ascii s h) (text_reads show_f64 parse_f64 name_lookup resolver s)
  value_reads (float b) h = elim h [ ]
  value_reads (timestamp t) h = elim h [ ]
  value_reads (blob b) h = elim h [ ]
  value_reads (scoped c v) h = elim h [ ]

  abbrev Tag : TagId → Type 0
  Tag = IsNamed show_f64 parse_f64 name_lookup resolver

  -- Every tag has a name that leads back to it, every id is a u64, and every value is an i64 or ASCII text.
  unfoldable mutual
    pub IsPlain : Query → Type 0
    IsPlain (has_tag t) = Tag t
    IsPlain (is_a t) = Tag t
    IsPlain (has_attr key op value) = Tag key × IsPlainValue value
    IsPlain (related predicate target) = Tag predicate × (target < 2 ^ 64)
    IsPlain (and_all qs) = ArePlain qs
    IsPlain (or_any qs) = ArePlain qs
    IsPlain (not_in q) = IsPlain q

    pub ArePlain : Queries → Type 0
    ArePlain no_queries = Unit
    ArePlain (query q qs) = IsPlain q × ArePlain qs

  named : (t : TagId) → Tag t → Named show_f64 parse_f64 name_lookup resolver t
  named t = name_reads show_f64 parse_f64 name_lookup resolver t

  mutual
    unfolding IsPlain ArePlain

    reads :
        (q : Query)
        → IsPlain q
        → Reads show_f64 parse_f64 name_lookup resolver
            (printed show_f64 parse_f64 name_lookup resolver q)
            q
    reads (has_tag t) h = tag-Reads show_f64 parse_f64 name_lookup resolver t (named t h)
    reads (is_a t) h = isa-Reads show_f64 parse_f64 name_lookup resolver t (named t h)
    reads (has_attr key op value) h =
        attr-Reads show_f64 parse_f64 name_lookup resolver key op value value (named key h.0)
          (value_reads value h.1)
    reads (related predicate target) h =
        related-Reads show_f64 parse_f64 name_lookup resolver predicate target (named predicate h.0)
          h.1
    reads (and_all qs) h = and_Reads show_f64 parse_f64 name_lookup resolver qs (reads_all qs h)
    reads (or_any qs) h = or_Reads show_f64 parse_f64 name_lookup resolver qs (reads_all qs h)
    reads (not_in q) h = not-Reads show_f64 parse_f64 name_lookup resolver q (reads q h)

    reads_all :
        (qs : Queries)
        → ArePlain qs
        → ReadsAll show_f64 parse_f64 name_lookup resolver
            (printed_all show_f64 parse_f64 name_lookup resolver qs)
            qs
    reads_all no_queries h = none_read show_f64 parse_f64 name_lookup resolver
    reads_all (query q qs) h =
        query-Reads show_f64 parse_f64 name_lookup resolver q qs (reads q h.0) (reads_all qs h.1)

  parse_read :
      (bs : List ℕ) (q : Query)
      → Reads show_f64 parse_f64 name_lookup resolver bs q
      → parse parse_f64 resolver bs ≡ done q
  unfolding parse tokenize parse_tokens finish
  parse_read bs q r =
      let lexed = r.lexes [] [] Lexes-nil 0 (length (bs ++ []) + 1) (omega arith) in
      let (p, e) = r.parses (2 * length r.tokens + 1) 0 [] (omega arith) in
      rw (simp append-nil at lexed) (rw (simp append-nil at e) refl)

  -- A plain query (IsPlain: each tag has a name that leads back to it, each object id fits 64
  -- bits, and each value is an i64 integer or an ASCII text) that is printed by to_sexpr and
  -- parsed again is the same query.
  pub parse-to_sexpr :
      (q : Query) → IsPlain q → parse parse_f64 resolver (to_sexpr show_f64 name_lookup q) ≡ done q
  unfolding to_sexpr
  parse-to_sexpr q h = parse_read (printed show_f64 parse_f64 name_lookup resolver q) q (reads q h)

  -- An attribute query whose text holds a byte above 127, with a key that reads back, is printed
  -- and parsed to one with a longer text.
  pub parse-to_sexpr_misread :
      (key : TagId) (op : CmpOp) (s : List ℕ)
      → Tag key
      → all (λ b. ltb b 128) s ≡ false
      → (t : List ℕ) × (parse parse_f64 resolver
            (to_sexpr show_f64 name_lookup (has_attr key op (text s)))
          ≡ done (has_attr key op (text t)))
        × (length s < length t)
  unfolding to_sexpr
  parse-to_sexpr_misread key op s h high = (
    reread s,
    parse_read _ _ (
        attr-Reads show_f64 parse_f64 name_lookup resolver key op (text s) (text (reread s))
          (named key h) (text_reads show_f64 parse_f64 name_lookup resolver s)),
    length-reread_high s high,
  )
