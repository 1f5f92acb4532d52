-- ===== src/Query/Print.antt =====
-- `to_sexpr` of `crates/query/src/parser.rs`: what `render` and `push_value` append to the output. Floats
-- are shown by the standard library, `show_f64`.
pub mod Lexed
use mimisbrunnr.Base.{ℕ, List, [], ◌∷◌, ◌++◌, length, if◌then◌else◌, ◌==◌, ◌||◌}
use mimisbrunnr.Types.ObjectId.{TagId, node_id, local_seq}
use mimisbrunnr.Types.Value.{Value, text, int, float, timestamp, blob, scoped}
use mimisbrunnr.Types.Query.{
  CmpOp, eq_op, ne_op, lt_op, le_op, gt_op, ge_op, prefix, contains, Query, Queries, has_tag,
  has_attr, related, and_all, or_any, not_in, is_a, no_queries, query,
}
use mimisbrunnr.Query.Text.{codes, decimal, hex, int_text}

-- A text with a backslash before each quote and each backslash. Bytes of longer characters pass.
unfoldable pub escaped : List ℕ → List ℕ
escaped [] = []
escaped (c ∷ cs) = if c == b'"' || c == b'\\' then b'\\' ∷ c ∷ escaped cs else c ∷ escaped cs

abbrev pub cmp_to_str : CmpOp → List ℕ
cmp_to_str eq_op = codes "="
cmp_to_str ne_op = codes "!="
cmp_to_str lt_op = codes "<"
cmp_to_str le_op = codes "<="
cmp_to_str gt_op = codes ">"
cmp_to_str ge_op = codes ">="
cmp_to_str prefix = codes "prefix"
cmp_to_str contains = codes "contains"

module _ (show_f64 : ℕ → List ℕ) where
  unfoldable pub push_value : Value → List ℕ
  push_value (int v) = int_text v
  push_value (float bits) = show_f64 bits
  push_value (timestamp t) = codes "ts:" ++ int_text t
  push_value (text s) = b'"' ∷ (escaped s ++ codes "\"")
  push_value (blob b) = codes "blob[" ++ (decimal (length b) ++ codes "]")
  push_value (scoped context inner) =
      codes "scoped(@" ++ (decimal context ++ (b',' ∷ (push_value inner ++ codes ")")))

  module _ (name_lookup : TagId → List ℕ) where
    unfoldable mutual
      pub render : Query → List ℕ
      render (has_tag t) = codes "(tag " ++ (name_lookup t ++ codes ")")
      render (is_a t) = codes "(isa " ++ (name_lookup t ++ codes ")")
      render (has_attr key op value) =
          codes "(attr "
          ++ (name_lookup key
              ++ (b' ' ∷ (cmp_to_str op ++ (b' ' ∷ (push_value value ++ codes ")")))))
      render (related predicate target) =
          codes "(related "
          ++ (name_lookup predicate
              ++ (codes " obj:"
                  ++ (hex (node_id target) ++ (b':' ∷ (decimal (local_seq target) ++ codes ")")))))
      render (and_all qs) = codes "(and" ++ (render_all qs ++ codes ")")
      render (or_any qs) = codes "(or" ++ (render_all qs ++ codes ")")
      render (not_in q) = codes "(not " ++ (render q ++ codes ")")

      pub render_all : Queries → List ℕ
      render_all no_queries = []
      render_all (query q qs) = b' ' ∷ (render q ++ render_all qs)

    unfoldable pub to_sexpr : Query → List ℕ
    to_sexpr = render
