-- ===== src/Query/Executor/IsA.antt =====
-- `eval_isa` of `crates/query/src/executor.rs` over the graph of `crates/ontology/src/implication_dag.rs`.
use mimisbrunnr.Base.{
  ℕ, ◌≡◌, refl, sym, ap, ap₂, ◌∙◌, Bool, false, ◌&&◌, ◌||◌, List, [], ◌∷◌, Option, none, some,
  if◌then◌else◌, ◌==◌, elem, arith,
}
use mimisbrunnr.Types.ObjectId.{TagId}
use mimisbrunnr.Types.Query.{Query}
use mimisbrunnr.Index.Bitmap.{Bitmap}
use mimisbrunnr.Ontology.Graph.{DiGraph}
use mimisbrunnr.Ontology.Dag
use mimisbrunnr.Ontology.Dag.{ImplicationDag, closure}
use mimisbrunnr.Ontology.Dag.Laws.{IsIndexed}
use mimisbrunnr.Ontology.Dag.IsA.{is_a-closure}
use mimisbrunnr.Query.Executor.{value, Indexes, has, eval_has_tag, isa_loop, evaluate}
use mimisbrunnr.Query.Executor.Sets.{isa_of, isa_finds}

pub has-elem : (ts : List TagId) (t : TagId) → has ts t ≡ elem t ts
unfolding has elem
has-elem [] t = refl
has-elem (u ∷ ts) t = ground (arith, has-elem ts t)

abbrev pub said : Option Bool → Bool
said none = false
said (some answer) = answer

abbrev pub or_nil : Option (List TagId) → List TagId
or_nil none = []
or_nil (some tags) = tags

module _ (b : Bitmap) (x : Indexes b) (p : DiGraph) (d : ImplicationDag p) where
  -- The executor's indexes with the ontology's graph `d`.
  abbrev pub over_dag : Indexes b
  over_dag = record {
    stores = x.stores;
    kv_lookup = x.kv_lookup;
    range_lookup = x.range_lookup;
    range_scan = x.range_scan;
    objects = x.objects;
    materialise = λ t. or_nil (closure p d (t ∷ []));
  }

  -- The object is in the store of a tag that `is_a` puts below the given one.
  abbrev pub below : TagId → ℕ → List (TagId × b.Set) → Bool
  below tag i [] = false
  below tag i ((t, s) ∷ stores) =
      (said (Dag.is_a p d t tag) && b.contains i (eval_has_tag b x t x.stores))
      || below tag i stores

  materialised :
      IsIndexed p d
      → (t tag : TagId) → has (or_nil (closure p d (t ∷ []))) tag ≡ said (Dag.is_a p d t tag)
  materialised indexed t tag =
      let (tags, e, f) = is_a-closure p d indexed t tag in
      ap (λ o. has (or_nil o) tag) e ∙ has-elem tags tag ∙ sym (ap said f)

  same_store :
      (t : TagId) (stores : List (TagId × b.Set))
      → eval_has_tag b over_dag t stores ≡ eval_has_tag b x t stores
  unfolding eval_has_tag
  same_store t [] = refl
  same_store t ((u, s) ∷ stores) = ap (λ w. if u == t then s else w) (same_store t stores)

  isa_of-below :
      IsIndexed p d
      → (tag : TagId) (i : ℕ) (stores : List (TagId × b.Set))
      → isa_of b over_dag tag i stores ≡ below tag i stores
  isa_of-below indexed tag i [] = refl
  isa_of-below indexed tag i ((t, s) ∷ stores) =
      ap₂ ◌||◌
        (ap₂ (λ u w. u && b.contains i w) (materialised indexed t tag) (same_store t x.stores))
        (isa_of-below indexed tag i stores)

  -- Over an implication graph whose map of the nodes is right, an isa query has a result, which
  -- holds just the objects that are in the store of a tag that is_a of the graph puts below the
  -- tag of the query.
  pub evaluate-is_a :
      IsIndexed p d
      → (tag : TagId)
      → (s : b.Set) × (evaluate b over_dag (Query.is_a tag) ≡ value s)
        × ((i : ℕ) → b.contains i s ≡ below tag i x.stores)
  unfolding evaluate
  evaluate-is_a indexed tag = (
    isa_loop b over_dag tag x.stores b.empty,
    refl,
    λ i. isa_finds b over_dag tag i ∙ isa_of-below indexed tag i x.stores,
  )
