-- ===== src/Ontology/Dag/Implies.antt =====
-- `add_implication` of `crates/ontology/src/implication_dag.rs`: when it succeeds, and that it keeps the
-- graph without cycles.
use mimisbrunnr.Base.{
  ℕ, ◌<◌, ◌≡◌, refl, sym, subst, ◌∙◌, ◌↔◌, none, some, Bool-cases, Option-cases, inl, inr,
}
use mimisbrunnr.Types.ObjectId.{TagId}
use mimisbrunnr.Ontology.Graph.{DiGraph}
use mimisbrunnr.Ontology.Dag.{ImplicationDag, index_of, cycle_check, with_edge, add_implication}
use mimisbrunnr.Ontology.Dag.Laws.{IsIndexed}
use mimisbrunnr.Ontology.Dag.Edges.{Acyclic, Acyclic-lift, taken_back}

module _ (p : DiGraph) where
  module _ (d : ImplicationDag p) where
    -- The topological sort of a graph fails just where there is a cycle.
    abbrev pub SortsOut : p.Graph → Type 0
    SortsOut g = (p.cycle_node g ≡ none) ↔ Acyclic p g

    checked : (g : p.Graph) → (cycle_check p g ≡ none) ↔ (p.cycle_node g ≡ none)
    unfolding cycle_check
    checked g = elim (Option-cases (p.cycle_node g)) [
      | inl e ↦ rw (e, cycle_check) ((λ h. refl), (λ h. refl))
      | inr (node, e) ↦ rw (e, cycle_check) ((λ h. cc), (λ h. cc))
    ]

    module _ (i j : ℕ) (fits : j < p.node_count d.graph) where
      kept-Acyclic :
          Acyclic p d.graph
          → SortsOut (p.add_edge i j d.graph)
          → Acyclic p (with_edge p d i j).0.graph
      unfolding with_edge
      kept-Acyclic a s = elim (Option-cases (cycle_check p (p.add_edge i j d.graph))) [
        | inl e ↦ rw (e, with_edge) (s.0 ((checked (p.add_edge i j d.graph)).0 e))
        | inr (x, e) ↦
            rw (e, with_edge)
              (Acyclic-lift p (p.remove_edge i j (p.add_edge i j d.graph)) d.graph
                (taken_back p d.graph i j fits) a)
      ]

    same-IsIndexed :
        (g : p.Graph)
        → p.node_count g ≡ p.node_count d.graph
        → ((x : ℕ) → p.weight g x ≡ p.weight d.graph x)
        → IsIndexed p d
        → IsIndexed p (record d { graph = g })
    same-IsIndexed g n w s = record {
      in_range = λ t i e. subst (λ m. i < m) (sym n) (s.in_range t i e);
      named = λ t i e. w i ∙ s.named t i e;
      indexed = λ i h.
          subst (λ t. index_of p t d.nodes ≡ some i) (sym (w i))
            (s.indexed i (subst (λ m. i < m) n h));
    }

    with_edge-IsIndexed : (i j : ℕ) → IsIndexed p d → IsIndexed p (with_edge p d i j).0
    unfolding with_edge
    with_edge-IsIndexed i j s = elim (Option-cases (cycle_check p (p.add_edge i j d.graph))) [
      | inl e ↦
          rw (e, with_edge)
            (same-IsIndexed (p.add_edge i j d.graph) (p.node_count-add_edge i j d.graph)
              (p.weight-add_edge i j d.graph) s)
      | inr (x, e) ↦
          rw (e, with_edge)
            (same-IsIndexed (p.remove_edge i j (p.add_edge i j d.graph))
              (p.node_count-remove_edge i j (p.add_edge i j d.graph)
                ∙ p.node_count-add_edge i j d.graph)
              (λ y.
                p.weight-remove_edge i j (p.add_edge i j d.graph) y
                ∙ p.weight-add_edge i j d.graph y)
              s)
    ]

    module _ (s : IsIndexed p d) (acyclic : Acyclic p d.graph) (from to : TagId)
        (sorts : (i j : ℕ)
          → index_of p from d.nodes ≡ some i
          → index_of p to d.nodes ≡ some j
          → SortsOut (p.add_edge i j d.graph)) where
      -- On a graph without cycles whose map of the nodes is right, and where the topological sort
      -- tells whether the new graph has a cycle, add_implication keeps the map right and the
      -- graph without cycles, on every branch.
      pub add_implication-Acyclic :
          IsIndexed p (add_implication p d from to).0
          × Acyclic p (add_implication p d from to).0.graph
      unfolding add_implication
      add_implication-Acyclic = elim (Option-cases (index_of p from d.nodes)) [
        | inl e ↦ rw (e, add_implication) (s, acyclic)
        | inr (i, e) ↦ elim (Option-cases (index_of p to d.nodes)) [
          | inl f ↦ rw (e, f, add_implication) (s, acyclic)
          | inr (j, f) ↦ elim (Bool-cases (p.has_edge i j d.graph)) [
            | inl h ↦ rw (e, f, h, add_implication) (s, acyclic)
            | inr h ↦
                rw (e, f, h, add_implication)
                  (
                    with_edge-IsIndexed i j s,
                    kept-Acyclic i j (s.in_range to j f) acyclic (sorts i j e f),
                  )
          ]
        ]
      ]
