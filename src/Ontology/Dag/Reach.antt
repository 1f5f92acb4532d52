-- ===== src/Ontology/Dag/Reach.antt =====
-- The searches of `crates/ontology/src/implication_dag.rs` and the paths of the graph.
use mimisbrunnr.Base.{
  ℕ, ◌≡◌, refl, sym, subst, ◌∙◌, Bool, true, false, ◌||◌, ◌↔◌, ◌⊎◌, List, [], ◌∷◌, ◌==◌, ==_iff,
  elem, Bool-cases, inl, inr, arith,
}
use mimisbrunnr.Ontology.Graph.{DiGraph}
use mimisbrunnr.Ontology.Dag.{Visit}
use mimisbrunnr.Ontology.Dag.Search.{entered, visited-entered, queue-entered}

or_cases : (a b : Bool) → (a || b) ≡ true → (a ≡ true) ⊎ (b ≡ true)
or_cases true b h = inl refl
or_cases false b h = inr h

module _ (p : DiGraph) (g : p.Graph) (roots : List ℕ) where
  -- The nodes on a path from a root.
  pub data Reaches : ℕ → Type 0 where
    root : {i : ℕ} → elem i roots ≡ true → Reaches i
    onto : {j k : ℕ} → Reaches j → elem k (p.neighbours g j) ≡ true → Reaches k

  -- A search under way.
  pub record IsSearch (v : Visit) : Type 0 where
    pub reached : (x : ℕ) → elem x v.visited ≡ true → Reaches x
    pub starts : (x : ℕ) → elem x roots ≡ true → elem x v.visited ≡ true
    pub queued : (x : ℕ) → elem x v.queue ≡ true → elem x v.visited ≡ true
    pub settled :
        (x j : ℕ)
        → elem x v.visited ≡ true
        → elem x v.queue ≡ false
        → elem j (p.neighbours g x) ≡ true
        → elem j v.visited ≡ true

  module _ (seen : List ℕ) (node : ℕ) (rest : List ℕ)
      (s : IsSearch (record { visited = seen; queue = node ∷ rest })) where
    abbrev popped : Visit
    popped = record { visited = seen; queue = rest }

    abbrev next : Visit
    next = entered (p.neighbours g node) popped

    node_seen : elem node seen ≡ true
    node_seen = s.queued node (unfold elem in ground arith)

    next_reached : (x : ℕ) → elem x next.visited ≡ true → Reaches x
    next_reached x h =
        elim (or_cases _ _ (sym (visited-entered x (p.neighbours g node) popped) ∙ h)) [
          | inl old ↦ s.reached x old
          | inr new ↦ onto (s.reached node node_seen) new
        ]

    stays : (x : ℕ) → elem x seen ≡ true → elem x next.visited ≡ true
    stays x h = ground (arith, visited-entered x (p.neighbours g node) popped, h)

    enters : (x : ℕ) → elem x (p.neighbours g node) ≡ true → elem x next.visited ≡ true
    enters x h = ground (arith, visited-entered x (p.neighbours g node) popped, h)

    next_queued : (x : ℕ) → elem x next.queue ≡ true → elem x next.visited ≡ true
    next_queued x h = elim (Bool-cases (elem x rest)) [
      | inl old ↦ stays x (s.queued x (unfold elem in ground (arith, old)))
      | inr new ↦ enters x (ground (arith, queue-entered x (p.neighbours g node) popped, h, new))
    ]

    next_settled :
        (x j : ℕ)
        → elem x next.visited ≡ true
        → elem x next.queue ≡ false
        → elem j (p.neighbours g x) ≡ true
        → elem j next.visited ≡ true
    next_settled x j h k e = elim (Bool-cases (x == node)) [
      | inl same ↦
          enters j (subst (λ y. elem j (p.neighbours g y) ≡ true) ((==_iff x node).0 same) e)
      | inr other ↦
          let old : elem x seen ≡ true = ground (
            arith,
            visited-entered x (p.neighbours g node) popped,
            queue-entered x (p.neighbours g node) popped,
            h,
            k,
          ) in
          let out : elem x rest ≡ false =
            ground (arith, queue-entered x (p.neighbours g node) popped, k) in
          stays j (s.settled x j old (unfold elem in ground (arith, other, out)) e)
    ]

    pub next-IsSearch : IsSearch next
    next-IsSearch = record {
      reached = next_reached;
      starts = λ x h. stays x (s.starts x h);
      queued = next_queued;
      settled = next_settled;
    }

  -- A search with an empty queue has visited just the nodes that the roots reach.
  pub visited-Reaches :
      (seen : List ℕ) (x : ℕ)
      → IsSearch (record { visited = seen; queue = [] })
      → (elem x seen ≡ true) ↔ Reaches x
  visited-Reaches seen x s = (s.reached x, complete x)
    where
      complete : (y : ℕ) → Reaches y → elem y seen ≡ true
      complete y (root h) = s.starts y h
      complete y (onto {j} r h) = s.settled j y (complete j r) (unfold elem in refl) h

  pub start-IsSearch : IsSearch (record { visited = roots; queue = roots })
  start-IsSearch = record {
    reached = λ x h. root h;
    starts = λ x h. h;
    queued = λ x h. h;
    settled = λ x j h k e. cc;
  }
