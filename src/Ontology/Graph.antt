-- ===== src/Ontology/Graph.antt =====
-- `DiGraph<TagId, ()>` of the crate `petgraph`, as the calls of `crates/ontology/src/implication_dag.rs` on
-- it, with the behaviour that they rely on: nodes are numbered from 0, and an edge is never added twice.
use mimisbrunnr.Base.{
  ℕ, ◌+◌, ◌<◌, ◌≡◌, Bool, true, not, ◌&&◌, ◌||◌, List, Option, if◌then◌else◌, ◌==◌, elem,
}
use mimisbrunnr.Types.ObjectId.{TagId}

pub record DiGraph : Type 1 where
  pub Graph : Type 0
  pub node_count : Graph → ℕ
  -- `graph[node]`
  pub weight : Graph → ℕ → TagId
  -- `neighbors_directed(node, Direction::Outgoing)`
  pub neighbours : Graph → ℕ → List ℕ
  -- `edges_directed(node, Direction::Incoming)`, the sources
  pub sources : Graph → ℕ → List ℕ
  -- `add_node`, whose node is the number of the nodes before
  pub add_node : TagId → Graph → Graph
  pub remove_node : ℕ → Graph → Graph
  -- `find_edge(from, to).is_some()`
  pub has_edge : ℕ → ℕ → Graph → Bool
  pub add_edge : ℕ → ℕ → Graph → Graph
  pub remove_edge : ℕ → ℕ → Graph → Graph
  -- `petgraph::algo::toposort`: the node of its error
  pub cycle_node : Graph → Option ℕ
  pub neighbours-lt : (g : Graph) (i j : ℕ) → elem j (neighbours g i) ≡ true → j < node_count g
  pub node_count-add_node : (t : TagId) (g : Graph) → node_count (add_node t g) ≡ node_count g + 1
  pub weight-add_node :
      (t : TagId) (g : Graph) (i : ℕ)
      → weight (add_node t g) i ≡ (if i == node_count g then t else weight g i)
  pub node_count-add_edge : (i j : ℕ) (g : Graph) → node_count (add_edge i j g) ≡ node_count g
  pub weight-add_edge : (i j : ℕ) (g : Graph) (x : ℕ) → weight (add_edge i j g) x ≡ weight g x
  pub neighbours-add_edge :
      (i j : ℕ) (g : Graph) (x y : ℕ)
      → j < node_count g
      → elem y (neighbours (add_edge i j g) x) ≡ (elem y (neighbours g x) || (x == i && y == j))
  pub has_edge_lem : (i j : ℕ) (g : Graph) → has_edge i j g ≡ elem j (neighbours g i)
  pub node_count-remove_edge : (i j : ℕ) (g : Graph) → node_count (remove_edge i j g) ≡ node_count g
  pub weight-remove_edge : (i j : ℕ) (g : Graph) (x : ℕ) → weight (remove_edge i j g) x ≡ weight g x
  pub neighbours-remove_edge :
      (i j : ℕ) (g : Graph) (x y : ℕ)
      → elem y (neighbours (remove_edge i j g) x)
        ≡ (elem y (neighbours g x) && not (x == i && y == j))
