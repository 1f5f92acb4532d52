-- ===== src/Query/Tests.antt =====
-- Tests of the query language of `crates/query/src/parser.rs`, and its theorems at concrete inputs.
use mimisbrunnr.Base.{
  ℕ, ◌<◌, ◌≡◌, ◌≢◌, refl, inl, inr, List, [], ◌∷◌, length, Option, none, some, if◌then◌else◌, ◌==◌,
  bytes_eq, arith,
}
use mimisbrunnr.Base.Int.{negsuc}
use mimisbrunnr.Types.ObjectId.{TagId, from_parts, node_id, local_seq}
use mimisbrunnr.Types.Value.{text, int}
use mimisbrunnr.Types.Query.{
  eq_op, prefix, Query, has_tag, has_attr, related, and_all, or_any, not_in, no_queries, query,
}
use mimisbrunnr.Query.Text.{codes, decimal, digits, take_while, drop_while, strip_prefix}
use mimisbrunnr.Query.Error.{parse_error, unknown_tag, done, failed, out_of_fuel}
use mimisbrunnr.Query.Token.{
  same, quoted, word_of, word_literal, round, tokenize_from, tokenize, as_char,
}
use mimisbrunnr.Query.Token.Total.{Settles, tokenize-Settles}
use mimisbrunnr.Query.Parse.{
  bump_tokens, expect, expect_word, parse_args, parse_atom, head_of, finish, parse_tokens, parse,
  parse_name_as_tag, taken_name, resolve,
}
use mimisbrunnr.Query.Parse.Total.{parse-ne-out_of_fuel}
use mimisbrunnr.Query.Print.{escaped, push_value, render, to_sexpr}
use mimisbrunnr.Query.RoundTrip.Atoms.{IsNamed}
use mimisbrunnr.Query.RoundTrip.Whole.{IsPlain, parse-to_sexpr, parse-to_sexpr_misread}

-- No float is shown or read in these tests.
no_float : ℕ → List ℕ
no_float bits = []

no_f64 : List ℕ → Option ℕ
no_f64 w = none

name_lookup : TagId → List ℕ
unfolding digits
name_lookup t = if t == 1 then codes "rock" else b'@' ∷ decimal t

resolver : List ℕ → Option TagId
unfolding bytes_eq
resolver w = if bytes_eq w (codes "rock") then some 1 else none

rock : IsNamed no_float no_f64 name_lookup resolver 1
unfolding name_lookup resolver strip_prefix
rock = inl (record { plain = refl; no_at = refl; not_obj = refl }, refl)

numbered : IsNamed no_float no_f64 name_lookup resolver 20
unfolding name_lookup
numbered = inr (refl, omega arith)

abbrev sample : Query
sample = and_all (
    query (has_tag 1) (
      query (has_attr 20 eq_op (int (negsuc 6))) (
        query (not_in (related 1 (from_parts 2 7))) (
          query (or_any no_queries)
            (query (has_attr 1 prefix (text (codes "a \"b\""))) no_queries)))))

sample-IsPlain : IsPlain no_float no_f64 name_lookup resolver sample
unfolding IsPlain from_parts
sample-IsPlain = (rock, ((numbered, omega arith), ((rock, omega arith), (tt, ((rock, refl), tt)))))

parse-to_sexpr_example : parse no_f64 resolver (to_sexpr no_float name_lookup sample) ≡ done sample
parse-to_sexpr_example = parse-to_sexpr no_float no_f64 name_lookup resolver sample sample-IsPlain

sample_text :
    to_sexpr no_float name_lookup sample
    ≡ codes
        "(and (tag rock) (attr @20 = -7) (not (related rock obj:2:7)) (or) (attr rock prefix \"a \\\"b\\\"\"))"
unfolding to_sexpr render name_lookup digits push_value escaped from_parts node_id local_seq
sample_text = refl

-- A text of one character of two bytes, U+00E9.
abbrev accented : List ℕ
accented = 195 ∷ 169 ∷ []

parse-to_sexpr_misread_example :
    (t : List ℕ) × (parse no_f64 resolver
        (to_sexpr no_float name_lookup (has_attr 1 eq_op (text accented)))
      ≡ done (has_attr 1 eq_op (text t)))
    × (length accented < length t)
parse-to_sexpr_misread_example =
    parse-to_sexpr_misread no_float no_f64 name_lookup resolver 1 eq_op accented rock refl

tokenize-Settles_example : Settles (length (codes "(tag \"x")) (tokenize (codes "(tag \"x"))
tokenize-Settles_example = tokenize-Settles (codes "(tag \"x")

parse-ne-out_of_fuel_example : parse no_f64 resolver (codes "(and (tag") ≢ out_of_fuel
parse-ne-out_of_fuel_example = parse-ne-out_of_fuel no_f64 resolver (codes "(and (tag")

unterminated : tokenize (codes "(tag \"x") ≡ failed (parse_error 7)
unfolding tokenize tokenize_from round quoted word_literal word_of take_while drop_while
    strip_prefix as_char
unterminated = refl

-- One space or many, the position of an error counts tokens.
trailing : parse no_f64 resolver (codes "(tag rock)      (tag rock)") ≡ failed (parse_error 4)
unfolding parse parse_tokens finish parse_atom parse_args expect expect_word bump_tokens same
    tokenize tokenize_from round word_literal word_of take_while drop_while strip_prefix head_of
    bytes_eq taken_name resolve resolver parse_name_as_tag
trailing = refl

unknown : parse no_f64 resolver (codes "(tag jazz)") ≡ failed (unknown_tag (codes "jazz"))
unfolding parse parse_tokens finish parse_atom parse_args expect expect_word bump_tokens same
    tokenize tokenize_from round word_literal word_of take_while drop_while strip_prefix head_of
    bytes_eq taken_name resolve resolver parse_name_as_tag
unknown = refl
