-- ===== src/Ontology/Dag/Tests.antt =====
-- Tests of `ImplicationDag` of `crates/ontology/src/implication_dag.rs`, and its theorems at concrete inputs.
use mimisbrunnr.Base.{ℕ, ◌<◌, ◌≤◌, ◌≡◌, refl, true, ◌↔◌, List, [], ◌∷◌, some, elem, arith}
use mimisbrunnr.Types.ObjectId.{TagId}
use mimisbrunnr.Ontology.Graph.{DiGraph}
use mimisbrunnr.Ontology.ListGraph.{graph_of, targets, descent, list_graph}
use mimisbrunnr.Ontology.Dag.{
  ImplicationDag, cycle_detected, insert_tag, index_of, is_a, seeds, expand, closure_loop, closure,
  cycle_check, with_edge, add_implication,
}
use mimisbrunnr.Ontology.Dag.Reach.{Reaches, root, onto}
use mimisbrunnr.Ontology.Dag.Laws.{IsIndexed, roots_of, closure_lem}
use mimisbrunnr.Ontology.Dag.IsA.{in_one, is_a-closure}
use mimisbrunnr.Ontology.Dag.Edges.{Acyclic}
use mimisbrunnr.Ontology.Dag.Implies.{SortsOut, add_implication-Acyclic}

-- The tag 10 implies 20.
abbrev dag : ImplicationDag list_graph
dag = record {
  graph = graph_of (10 ∷ 20 ∷ 30 ∷ []) ((0, 1) ∷ []);
  nodes = (10, 0) ∷ (20, 1) ∷ (30, 2) ∷ [];
}

dag-IsIndexed : IsIndexed list_graph dag
unfolding index_of list_graph graph_of
dag-IsIndexed = record {
  in_range = λ t i h. ground (arith, h);
  named = λ t i h. ground (arith, h);
  indexed = λ i h. ground (arith, h);
}

-- A graph whose edges ascend has no cycle.
ascending-Acyclic :
    (p : DiGraph) (g : p.Graph)
    → ((x y : ℕ) → elem y (p.neighbours g x) ≡ true → x < y)
    → Acyclic p g
ascending-Acyclic p g up x y r e = absurd (omega (arith, climbs y r, up y x e))
  where
    climbs : (z : ℕ) → Reaches p g (x ∷ []) z → x ≤ z
    climbs z (root h) = omega (arith, in_one z x h)
    climbs z (onto {j = k} q h) = omega (arith, climbs k q, up k z h)

dag-Acyclic : Acyclic list_graph dag.graph
dag-Acyclic =
    ascending-Acyclic list_graph dag.graph
      (λ x y h. unfold list_graph graph_of targets elem in ground (arith, h))

closure_10 : closure list_graph dag (10 ∷ []) ≡ some (10 ∷ 20 ∷ [])
unfolding closure closure_loop seeds expand insert_tag index_of elem list_graph graph_of targets
closure_10 = refl

closure_lem_example :
    (tags : List TagId) × (closure list_graph dag (10 ∷ []) ≡ some tags)
    × ((t : TagId)
        → (elem t tags ≡ true) ↔ (
            (i : ℕ) × Reaches list_graph dag.graph (roots_of list_graph dag (10 ∷ [])) i
            × (list_graph.weight dag.graph i ≡ t)))
closure_lem_example = closure_lem list_graph dag dag-IsIndexed (10 ∷ [])

is_a-closure_example :
    (tags : List TagId) × (closure list_graph dag (10 ∷ []) ≡ some tags)
    × (is_a list_graph dag 10 20 ≡ some (elem 20 tags))
is_a-closure_example = is_a-closure list_graph dag dag-IsIndexed 10 20

abbrev longer : list_graph.Graph
longer = graph_of (10 ∷ 20 ∷ 30 ∷ []) ((1, 2) ∷ (0, 1) ∷ [])

longer-Acyclic : Acyclic list_graph longer
longer-Acyclic =
    ascending-Acyclic list_graph longer
      (λ x y h. unfold list_graph graph_of targets elem in ground (arith, h))

sorts :
    (i j : ℕ)
    → index_of list_graph 20 dag.nodes ≡ some i
    → index_of list_graph 30 dag.nodes ≡ some j
    → SortsOut list_graph dag (list_graph.add_edge i j dag.graph)
unfolding list_graph index_of graph_of descent
sorts i j e f =
    let a : i ≡ 1 = ground (arith, e) in
    let b : j ≡ 2 = ground (arith, f) in rw (a, b) ((λ h. longer-Acyclic), (λ h. refl))

add_implication-Acyclic_example :
    IsIndexed list_graph (add_implication list_graph dag 20 30).0
    × Acyclic list_graph (add_implication list_graph dag 20 30).0.graph
add_implication-Acyclic_example =
    add_implication-Acyclic list_graph dag dag-IsIndexed dag-Acyclic 20 30 sorts

-- 20 must not imply 10 as well: the error names an edge into a node of the cycle.
cycle_refused : (add_implication list_graph dag 20 10).1 ≡ some (cycle_detected 10 20)
unfolding add_implication with_edge cycle_check index_of elem list_graph graph_of targets descent
cycle_refused = refl
