-- ===== src/Ontology/Dag/Edges.antt =====
-- Paths and cycles of a graph of `crates/ontology` when an edge is added or taken back.
use mimisbrunnr.Base.{
  ℕ, ◌<◌, ◌≡◌, refl, sym, subst, ◌∙◌, Bool, true, false, ◌&&◌, ◌||◌, ◌⊎◌, List, [], ◌∷◌, ==_iff,
  ==_refl, elem, inl, inr, arith,
}
use mimisbrunnr.Ontology.Graph.{DiGraph}
use mimisbrunnr.Ontology.Dag.Reach.{Reaches, root, onto}
use mimisbrunnr.Ontology.Dag.IsA.{in_one, one_in}

and_parts : (a b : Bool) → (a && b) ≡ true → (a ≡ true) × (b ≡ true)
and_parts true true h = (refl, refl)
and_parts true false h = cc
and_parts false b h = cc

or_parts : (a b : Bool) → (a || b) ≡ true → (a ≡ true) ⊎ (b ≡ true)
or_parts true b h = inl refl
or_parts false b h = inr h

module _ (p : DiGraph) where
  -- No node has a path of one edge or more to itself.
  abbrev pub Acyclic : p.Graph → Type 0
  Acyclic g = (x y : ℕ) → Reaches p g (x ∷ []) y → elem x (p.neighbours g y) ≡ true → ⊥

  lift :
      (g h : p.Graph) (rs : List ℕ) (k : ℕ)
      → ((x y : ℕ) → elem y (p.neighbours g x) ≡ true → elem y (p.neighbours h x) ≡ true)
      → Reaches p g rs k
      → Reaches p h rs k
  lift g h rs k sub (root e) = root e
  lift g h rs k sub (onto {j} r e) = onto (lift g h rs j sub r) (sub j k e)

  trans :
      (g : p.Graph) (rs : List ℕ) (x y : ℕ)
      → Reaches p g rs x
      → Reaches p g (x ∷ []) y
      → Reaches p g rs y
  trans g rs x y a (root e) = subst (Reaches p g rs) (sym (in_one y x e)) a
  trans g rs x y a (onto {j = k} b e) = onto (trans g rs x k a b) e

  pub Acyclic-lift :
      (g h : p.Graph)
      → ((x y : ℕ) → elem y (p.neighbours g x) ≡ true → elem y (p.neighbours h x) ≡ true)
      → Acyclic h
      → Acyclic g
  Acyclic-lift g h sub a x y r e = a x y (lift g h (x ∷ []) y sub r) (sub y x e)

  module _ (g : p.Graph) (i j : ℕ) (fits : j < p.node_count g) where
    abbrev added : p.Graph
    added = p.add_edge i j g

    edge_cases :
        (x y : ℕ)
        → elem y (p.neighbours added x) ≡ true
        → (elem y (p.neighbours g x) ≡ true) ⊎ ((x ≡ i) × (y ≡ j))
    edge_cases x y h = elim (or_parts _ _ (sym (p.neighbours-add_edge i j g x y fits) ∙ h)) [
      | inl old ↦ inl old
      | inr new ↦ let (a, b) = and_parts _ _ new in inr ((==_iff x i).0 a, (==_iff y j).0 b)
    ]

    old_edge : (x y : ℕ) → elem y (p.neighbours g x) ≡ true → elem y (p.neighbours added x) ≡ true
    old_edge x y h = p.neighbours-add_edge i j g x y fits ∙ ground (arith, h)

    new_edge : elem j (p.neighbours added i) ≡ true
    new_edge = p.neighbours-add_edge i j g i j fits ∙ ground (arith, ==_refl i, ==_refl j)

    -- A path of the new graph is one of the old, or goes over the new edge.
    split :
        (x y : ℕ)
        → Reaches p added (x ∷ []) y
        → Reaches p g (x ∷ []) y ⊎ (Reaches p g (x ∷ []) i × Reaches p g (j ∷ []) y)
    split x y (root e) = inl (root e)
    split x y (onto {j = k} r e) = elim (split x k r) [
      | inl old ↦ elim (edge_cases k y e) [
        | inl f ↦ inl (onto old f)
        | inr (same, end) ↦ inr (
          subst (Reaches p g (x ∷ [])) same old,
          subst (Reaches p g (j ∷ [])) (sym end) (root (one_in j)),
        )
      ]
      | inr (a, b) ↦ elim (edge_cases k y e) [
        | inl f ↦ inr (a, onto b f)
        | inr (same, end) ↦ inr (a, subst (Reaches p g (j ∷ [])) (sym end) (root (one_in j)))
      ]
    ]

    pub added-Acyclic : Acyclic g → (Reaches p g (j ∷ []) i → ⊥) → Acyclic added
    added-Acyclic a apart x y r e = elim (split x y r) [
      | inl old ↦ elim (edge_cases y x e) [
        | inl f ↦ a x y old f
        | inr (same, end) ↦
            apart (subst (λ z. Reaches p g (z ∷ []) i) end (subst (Reaches p g (x ∷ [])) same old))
      ]
      | inr (b, c) ↦ elim (edge_cases y x e) [
        | inl f ↦ apart (trans g (j ∷ []) x i (onto c f) b)
        | inr (same, end) ↦ apart (subst (Reaches p g (j ∷ [])) same c)
      ]
    ]

    pub added_cyclic : Reaches p g (j ∷ []) i → Acyclic added → ⊥
    added_cyclic r a = a j i (lift g added (j ∷ []) i old_edge r) new_edge

    -- Taking the edge back leaves the edges there were.
    pub taken_back :
        (x y : ℕ)
        → elem y (p.neighbours (p.remove_edge i j added) x) ≡ true
        → elem y (p.neighbours g x) ≡ true
    taken_back x y h =
        ground
          (arith, p.neighbours-remove_edge i j added x y, p.neighbours-add_edge i j g x y fits, h)
