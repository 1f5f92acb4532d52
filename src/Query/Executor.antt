-- ===== src/Query/Executor.antt =====
-- `QueryExecutor` of `crates/query/src/executor.rs` over the indexes that it borrows.
pub mod Sets
pub mod Matches
pub mod Leaves
pub mod Integers
pub mod Meaning
pub mod Total
pub mod Ranges
pub mod IsA
mod Tests
use mimisbrunnr.Base.{
  ℕ, zero, suc, ◌+◌, ◌-◌, ◌%◌, ◌++◌, ◌^◌, Bool, true, false, not, ◌&&◌, ◌||◌, List, [], ◌∷◌, Option,
  none, some, if◌then◌else◌, ltb, leb, ◌==◌,
}
use mimisbrunnr.Base.Int.{pos, negsuc}
use mimisbrunnr.Types.ObjectId.{ObjectId, TagId, local_seq, from_parts}
use mimisbrunnr.Types.Value.{Value, text, int, float, timestamp, blob, scoped}
use mimisbrunnr.Types.Assertion.{Assertion, tagged, attr, relation}
use mimisbrunnr.Types.Query.{
  CmpOp, eq_op, ne_op, lt_op, le_op, gt_op, ge_op, prefix, contains, Query, Queries, has_tag,
  has_attr, related, and_all, or_any, not_in, is_a, no_queries, query,
}
use mimisbrunnr.Index.Bitmap.{Bitmap}
use mimisbrunnr.Query.Error.{QueryError, unsupported_cmp_op}

-- How an evaluation ends; the range scan can panic.
pub data Eval {ℓ} (A : Type ℓ) : Type ℓ where
  value : A → Eval A
  failed : QueryError → Eval A
  panicked : Eval A

infixl 5 ◌>>=◌
abbrev pub ◌>>=◌ {ℓ κ} : {A : Type ℓ} {B : Type κ} → Eval A → (A → Eval B) → Eval B
value a >>= f = f a
failed e >>= f = failed e
panicked >>= f = panicked

-- What the executor calls: `TagIndex::get` and `iter`, `KvIndex::lookup`, `RangeIndex::lookup` and
-- `range_scan` (`none` is a panic), `ForwardIndex::iter`, and `OntologyState::materialise` of one tag.
pub record Indexes (b : Bitmap) : Type 0 where
  pub stores : List (TagId × b.Set)
  pub kv_lookup : TagId → Value → b.Set
  pub range_lookup : TagId → Value → b.Set
  pub range_scan : TagId → Value → Value → Option b.Set
  pub objects : List (ObjectId × List Assertion)
  pub materialise : TagId → List TagId

-- The low 32 bits of a local sequence that has no more.
unfoldable pub oid_low32 : ObjectId → Option ℕ
unfolding local_seq
oid_low32 id = if leb (local_seq id) (2 ^ 32 - 1) then some (local_seq id) else none

-- `slice::contains`
unfoldable pub has : List TagId → TagId → Bool
has [] tag = false
has (t ∷ ts) tag = t == tag || has ts tag

-- `str::starts_with`
unfoldable pub starts_with : List ℕ → List ℕ → Bool
starts_with bs [] = true
starts_with [] (p ∷ ps) = false
starts_with (c ∷ bs) (p ∷ ps) = c == p && starts_with bs ps

unfoldable pub is_related : TagId → ObjectId → Assertion → Bool
is_related predicate target (relation p t) = p == predicate && t == target
is_related predicate target _ = false

unfoldable pub has_key : TagId → Assertion → Bool
has_key key (attr k v) = k == key
has_key key _ = false

unfoldable pub has_prefix : TagId → List ℕ → Assertion → Bool
unfolding starts_with
has_prefix key needle (attr k (text haystack)) = k == key && starts_with haystack needle
has_prefix key needle _ = false

-- The bound below the values of a kind, and the one meant to be above them. A text of 32 bytes 0xFF is
-- decoded lossily, each byte to the character U+FFFD.
unfoldable pub type_min : Value → Value
type_min (int v) = int (negsuc (2 ^ 63 - 1))
type_min (float v) = float (2 ^ 64 - 2 ^ 52)
type_min (timestamp v) = timestamp (negsuc (2 ^ 63 - 1))
type_min (text s) = text []
type_min (blob s) = blob []
type_min (scoped context inner) = scoped context (type_min inner)

unfoldable pub repeated : ℕ → List ℕ → List ℕ
repeated zero bs = []
repeated (suc n) bs = bs ++ repeated n bs

unfoldable pub type_max : Value → Value
unfolding repeated
type_max (int v) = int (pos (2 ^ 63 - 1))
type_max (float v) = float (2 ^ 63 - 2 ^ 52)
type_max (timestamp v) = timestamp (pos (2 ^ 63 - 1))
type_max (text s) = text (repeated 32 (239 ∷ 191 ∷ 189 ∷ []))
type_max (blob s) = blob (repeated 32 (255 ∷ []))
type_max (scoped context inner) = scoped context (type_max inner)

-- `bitmaps.sort_by_key(|b| b.len())`, a stable sort.
module _ (b : Bitmap) where
  unfoldable pub place : b.Set → List b.Set → List b.Set
  place s [] = s ∷ []
  place s (t ∷ ts) = if leb (b.len s) (b.len t) then s ∷ t ∷ ts else t ∷ place s ts

  unfoldable pub sort_by_len : List b.Set → List b.Set
  unfolding place
  sort_by_len [] = []
  sort_by_len (s ∷ ss) = place s (sort_by_len ss)

  -- What `swap_remove(0)` leaves behind the first: the last in its place.
  unfoldable pub rotated : List b.Set → List b.Set
  rotated [] = []
  rotated (s ∷ ss) = elim (rotated ss) [ [] ↦ s ∷ [] | last ∷ front ↦ last ∷ s ∷ front ]

  -- The loop of `eval_and`, which stops at the empty set.
  unfoldable pub meet : b.Set → List b.Set → b.Set
  meet acc [] = acc
  meet acc (s ∷ ss) =
      let rest = meet (b.intersect acc s) ss in
      if b.is_empty (b.intersect acc s) then b.intersect acc s else rest

  unfoldable pub meet_sorted : List b.Set → b.Set
  unfolding meet rotated
  meet_sorted [] = b.empty
  meet_sorted (s ∷ ss) = meet s (rotated ss)

  unfoldable pub join : b.Set → List b.Set → b.Set
  join acc [] = acc
  join acc (s ∷ ss) = join (b.union acc s) ss

  module _ (x : Indexes b) where
    unfoldable pub eval_has_tag : TagId → List (TagId × b.Set) → b.Set
    eval_has_tag tag [] = b.empty
    eval_has_tag tag ((t, s) ∷ stores) = if t == tag then s else eval_has_tag tag stores

    -- The scans of the forward index: an object is added for each assertion of it that passes the test.
    unfoldable pub add_object : (Assertion → Bool) → ObjectId → List Assertion → b.Set → b.Set
    unfolding oid_low32
    add_object p id [] acc = acc
    add_object p id (a ∷ stated) acc =
        add_object p id stated
          (if p a then elim (oid_low32 id) [ none ↦ acc | some i ↦ b.insert i acc ] else acc)

    unfoldable pub scan_objects :
        (Assertion → Bool) → List (ObjectId × List Assertion) → b.Set → b.Set
    unfolding add_object
    scan_objects p [] acc = acc
    scan_objects p ((id, stated) ∷ objects) acc =
        scan_objects p objects (add_object p id stated acc)

    unfoldable pub objects_with_attr_key : TagId → b.Set
    unfolding scan_objects has_key
    objects_with_attr_key key = scan_objects (has_key key) x.objects b.empty

    unfoldable pub eval_related : TagId → ObjectId → b.Set
    unfolding scan_objects is_related
    eval_related predicate target = scan_objects (is_related predicate target) x.objects b.empty

    unfoldable pub eval_prefix : TagId → Value → b.Set
    unfolding scan_objects has_prefix
    eval_prefix key (text needle) = scan_objects (has_prefix key needle) x.objects b.empty
    eval_prefix key _ = b.empty

    unfoldable pub scanned : Option b.Set → (b.Set → b.Set) → Eval b.Set
    scanned none f = panicked
    scanned (some s) f = value (f s)

    unfoldable pub eval_range : TagId → CmpOp → Value → Eval b.Set
    unfolding scanned type_min type_max
    eval_range key lt_op v = scanned (x.range_scan key (type_min v) v) (λ s. s)
    eval_range key le_op v =
        scanned (x.range_scan key (type_min v) v) (λ s. b.union s (x.range_lookup key v))
    eval_range key gt_op v =
        scanned (x.range_scan key v (type_max v)) (λ s. b.difference s (x.range_lookup key v))
    eval_range key ge_op v =
        scanned (x.range_scan key v (type_max v)) (λ s. b.union s (x.range_lookup key v))
    eval_range key _ v = value b.empty

    unfoldable pub eval_has_attr : TagId → CmpOp → Value → Eval b.Set
    unfolding eval_range eval_prefix objects_with_attr_key
    eval_has_attr key eq_op v = value (x.kv_lookup key v)
    eval_has_attr key ne_op v = value (b.difference (objects_with_attr_key key) (x.kv_lookup key v))
    eval_has_attr key prefix v = value (eval_prefix key v)
    eval_has_attr key contains v = failed unsupported_cmp_op
    eval_has_attr key op v = eval_range key op v

    unfoldable pub isa_loop : TagId → List (TagId × b.Set) → b.Set → b.Set
    unfolding has eval_has_tag
    isa_loop tag [] acc = acc
    isa_loop tag ((t, s) ∷ stores) acc =
        isa_loop tag stores
          (if has (x.materialise t) tag then b.union acc (eval_has_tag t x.stores) else acc)

    unfoldable pub universe_loop : List (TagId × b.Set) → b.Set → b.Set
    universe_loop [] acc = acc
    universe_loop ((t, s) ∷ stores) acc = universe_loop stores (b.union acc s)

    unfoldable pub universe : b.Set
    unfolding universe_loop
    universe = universe_loop x.stores b.empty

    unfoldable mutual
      pub evaluate : Query → Eval b.Set
      evaluate (has_tag tag) = value (eval_has_tag tag x.stores)
      evaluate (has_attr key op v) = eval_has_attr key op v
      evaluate (related predicate target) = value (eval_related predicate target)
      evaluate (and_all qs) = evaluate_all qs >>= λ ss. value (meet_sorted (sort_by_len ss))
      evaluate (or_any qs) = evaluate_all qs >>= λ ss. value (join b.empty ss)
      evaluate (not_in q) = evaluate q >>= λ s. value (b.difference universe s)
      evaluate (is_a tag) = value (isa_loop tag x.stores b.empty)

      -- Each query in turn, up to the first that does not succeed.
      pub evaluate_all : Queries → Eval (List b.Set)
      evaluate_all no_queries = value []
      evaluate_all (query q qs) = evaluate q >>= λ s. evaluate_all qs >>= λ ss. value (s ∷ ss)

    -- Full object ids, of node 0.
    unfoldable pub full_ids : List ℕ → List ObjectId
    unfolding from_parts
    full_ids [] = []
    full_ids (i ∷ is) = from_parts 0 i ∷ full_ids is

    unfoldable pub evaluate_full : Query → Eval (List ObjectId)
    unfolding evaluate full_ids
    evaluate_full q = evaluate q >>= λ s. value (full_ids (b.iter s))
