-- ===== src/Ontology/Dag.antt =====
-- `ImplicationDag` of `crates/ontology/src/implication_dag.rs`: the searches that answer `is_a` and
-- `closure`. The maps and sets of the standard library are lists; a loop over a queue takes fuel.
pub mod Search
pub mod Reach
pub mod Loops
pub mod Laws
pub mod IsA
pub mod Edges
pub mod Implies
mod Tests
use mimisbrunnr.Base.{
  ℕ, zero, suc, ◌+◌, ◌-◌, Bool, true, false, List, [], ◌∷◌, ◌++◌, Option, none, some, if◌then◌else◌,
  ltb, ◌==◌, elem,
}
use mimisbrunnr.Types.ObjectId.{TagId}
use mimisbrunnr.Ontology.Graph.{DiGraph}

pub data OntologyError : Type 0 where
  tag_not_found : TagId → OntologyError
  cycle_detected : (from to : TagId) → OntologyError

-- `BTreeSet::insert`: the set is its elements in order.
unfoldable pub insert_tag : TagId → List TagId → List TagId
insert_tag t [] = t ∷ []
insert_tag t (u ∷ us) =
    if t == u then u ∷ us else if ltb t u then t ∷ u ∷ us else u ∷ insert_tag t us

pub record Visit : Type 0 where
  pub visited : List ℕ
  pub queue : List ℕ

-- `visited.insert(node)` of a new node, and `queue.push_back(node)`
abbrev pub enter : ℕ → Visit → Visit
enter i v = record { visited = i ∷ v.visited; queue = v.queue ++ (i ∷ []) }

module _ (p : DiGraph) where
  pub record ImplicationDag : Type 0 where
    pub graph : p.Graph
    pub nodes : List (TagId × ℕ)

  -- `HashMap::get`
  unfoldable pub index_of : TagId → List (TagId × ℕ) → Option ℕ
  index_of tag [] = none
  index_of tag ((t, i) ∷ nodes) = if tag == t then some i else index_of tag nodes

  abbrev pub is_known : Option ℕ → Bool
  is_known none = false
  is_known (some i) = true

  unfoldable pub contains : ImplicationDag → TagId → Bool
  unfolding index_of
  contains d tag = is_known (index_of tag d.nodes)

  -- `HashMap::insert` and `HashMap::remove`
  unfoldable pub nodes_remove : TagId → List (TagId × ℕ) → List (TagId × ℕ)
  nodes_remove tag [] = []
  nodes_remove tag ((t, i) ∷ nodes) = elim (tag == t) [
    | true ↦ nodes_remove tag nodes
    | false ↦ (t, i) ∷ nodes_remove tag nodes
  ]

  unfoldable pub nodes_insert : TagId → ℕ → List (TagId × ℕ) → List (TagId × ℕ)
  unfolding nodes_remove
  nodes_insert tag i nodes = (tag, i) ∷ nodes_remove tag nodes

  unfoldable pub add_tag : ImplicationDag → TagId → ImplicationDag
  unfolding contains nodes_insert
  add_tag d tag = if contains d tag then d else record {
    graph = p.add_node tag d.graph;
    nodes = nodes_insert tag (p.node_count d.graph) d.nodes;
  }

  -- `cycle_check`: the error names the cycle's node and the first edge into it.
  abbrev pub first_or : ℕ → List ℕ → ℕ
  first_or i [] = i
  first_or i (j ∷ js) = j

  unfoldable pub cycle_check : p.Graph → Option OntologyError
  cycle_check g = elim (p.cycle_node g) [
    | none ↦ none
    | some node ↦
        some (cycle_detected (p.weight g (first_or node (p.sources g node))) (p.weight g node))
  ]

  -- An edge that closes a cycle is taken back.
  unfoldable pub with_edge : ImplicationDag → ℕ → ℕ → ImplicationDag × Option OntologyError
  unfolding cycle_check
  with_edge d i j = elim (cycle_check (p.add_edge i j d.graph)) [
    | none ↦ (record d { graph = p.add_edge i j d.graph }, none)
    | some e ↦ (record d { graph = p.remove_edge i j (p.add_edge i j d.graph) }, some e)
  ]

  -- `none` beside the graph is `Ok(())`.
  unfoldable pub add_implication :
      ImplicationDag → TagId → TagId → ImplicationDag × Option OntologyError
  unfolding index_of with_edge
  add_implication d from to = elim (index_of from d.nodes) [
    | none ↦ (d, some (tag_not_found from))
    | some i ↦ elim (index_of to d.nodes) [
      | none ↦ (d, some (tag_not_found to))
      | some j ↦ elim (p.has_edge i j d.graph) [ true ↦ (d, none) | false ↦ with_edge d i j ]
    ]
  ]

  unfoldable pub remove_implication : ImplicationDag → TagId → TagId → ImplicationDag
  unfolding index_of
  remove_implication d from to = elim (index_of from d.nodes) [
    | none ↦ d
    | some i ↦ elim (index_of to d.nodes) [
      | none ↦ d
      | some j ↦
          if p.has_edge i j d.graph then record d { graph = p.remove_edge i j d.graph } else d
    ]
  ]

  -- `remove_node` moves the last node to the place of the removed one.
  unfoldable pub remove_tag : ImplicationDag → TagId → ImplicationDag
  unfolding index_of nodes_remove nodes_insert
  remove_tag d tag = elim (index_of tag d.nodes) [
    | none ↦ d
    | some i ↦
        let last = p.node_count d.graph - 1 in
        let nodes = nodes_remove tag d.nodes in
        record {
          graph = p.remove_node i d.graph;
          nodes = if last == i then nodes else nodes_insert (p.weight d.graph last) i nodes;
        }
  ]

  -- The loop over the neighbours in `reachable`; `none` is the early return of `true`.
  unfoldable pub scan : ℕ → List ℕ → Visit → Option Visit
  scan target [] v = some v
  scan target (j ∷ js) v =
      if j == target
      then none
      else if elem j v.visited
      then scan target js v
      else scan target js (enter j v)

  unfoldable pub reachable_loop : p.Graph → ℕ → ℕ → Visit → Option Bool
  unfolding scan
  reachable_loop g target zero v = none
  reachable_loop g target (suc fuel) v = elim v.queue [
    | [] ↦ some false
    | node ∷ rest ↦ elim (scan target (p.neighbours g node) (record v { queue = rest })) [
      | none ↦ some true
      | some w ↦ reachable_loop g target fuel w
    ]
  ]

  -- A node is in the queue once at most.
  unfoldable pub reachable : p.Graph → ℕ → ℕ → Option Bool
  unfolding reachable_loop
  reachable g start target =
      reachable_loop g target (p.node_count g + 1)
        (record { visited = start ∷ []; queue = start ∷ [] })

  unfoldable pub is_a : ImplicationDag → TagId → TagId → Option Bool
  unfolding reachable contains index_of
  is_a d tag ancestor = elim (tag == ancestor) [
    | true ↦ some (contains d tag)
    | false ↦ elim (index_of tag d.nodes) [
      | none ↦ some false
      | some start ↦ elim (index_of ancestor d.nodes) [
        | none ↦ some false
        | some target ↦ reachable d.graph start target
      ]
    ]
  ]

  -- The loop over the direct tags, and the one over the neighbours, with the result of `closure`.
  unfoldable pub seeds : ImplicationDag → List TagId → Visit × List TagId → Visit × List TagId
  unfolding index_of insert_tag
  seeds d [] s = s
  seeds d (t ∷ ts) s = elim (index_of t d.nodes) [
    | none ↦ seeds d ts s
    | some i ↦ elim (elem i s.0.visited) [
      | true ↦ seeds d ts s
      | false ↦ seeds d ts (enter i s.0, insert_tag t s.1)
    ]
  ]

  unfoldable pub expand : p.Graph → List ℕ → Visit × List TagId → Visit × List TagId
  unfolding insert_tag
  expand g [] s = s
  expand g (j ∷ js) s = elim (elem j s.0.visited) [
    | true ↦ expand g js s
    | false ↦ expand g js (enter j s.0, insert_tag (p.weight g j) s.1)
  ]

  unfoldable pub closure_loop : p.Graph → ℕ → Visit × List TagId → Option (List TagId)
  unfolding expand
  closure_loop g zero s = none
  closure_loop g (suc fuel) s = elim s.0.queue [
    | [] ↦ some s.1
    | node ∷ rest ↦
        closure_loop g fuel (expand g (p.neighbours g node) (record s.0 { queue = rest }, s.1))
  ]

  unfoldable pub closure : ImplicationDag → List TagId → Option (List TagId)
  unfolding closure_loop seeds
  closure d direct =
      closure_loop d.graph (p.node_count d.graph + 1)
        (seeds d direct (record { visited = []; queue = [] }, []))
