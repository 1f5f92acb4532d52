-- ===== src/Ontology/Dag/IsA.antt =====
-- `is_a` of `crates/ontology/src/implication_dag.rs` against `closure`.
use mimisbrunnr.Base.{
  ℕ, ◌+◌, ◌<◌, ◌≡◌, ◌≢◌, refl, sym, ap, subst, ◌∙◌, Bool, true, false, ◌↔◌, List, [], ◌∷◌, Option,
  none, some, ◌==◌, ==_iff, ==_refl, elem, left_out_cons, left_out_nil, Bool-cases, Option-cases,
  inl, inr, arith,
}
use mimisbrunnr.Types.ObjectId.{TagId}
use mimisbrunnr.Ontology.Graph.{DiGraph}
use mimisbrunnr.Ontology.Dag.{ImplicationDag, index_of, contains, reachable, is_a, closure}
use mimisbrunnr.Ontology.Dag.Reach.{Reaches, root, onto, start-IsSearch}
use mimisbrunnr.Ontology.Dag.Loops.{reachable_loop_lem}
use mimisbrunnr.Ontology.Dag.Laws.{IsIndexed, or_none, closure_lem}

eq_of_iff : (a b : Bool) → (a ≡ true) ↔ (b ≡ true) → a ≡ b
eq_of_iff true b h = sym (h.0 refl)
eq_of_iff false true h = h.1 refl
eq_of_iff false false h = refl

in_none : (i : ℕ) → elem i [] ≢ true
unfolding elem
in_none i h = cc

pub in_one : (i j : ℕ) → elem i (j ∷ []) ≡ true → i ≡ j
unfolding elem
in_one i j h = ground (arith, h)

pub one_in : (i : ℕ) → elem i (i ∷ []) ≡ true
unfolding elem
one_in i = ground (arith, ==_refl i)

not_in_one : (i j : ℕ) → i ≢ j → elem i (j ∷ []) ≡ false
unfolding elem
not_in_one i j h = ground (arith, h)

module _ (p : DiGraph) (d : ImplicationDag p) (indexed : IsIndexed p d) where
  abbrev index : TagId → Option ℕ
  index t = index_of p t d.nodes

  none_reached : (i : ℕ) → Reaches p d.graph [] i → ⊥
  none_reached i (root h) = in_none i h
  none_reached i (onto {j} r h) = none_reached j r

  reached-lt :
      (start : ℕ)
      → start < p.node_count d.graph
      → (i : ℕ) → Reaches p d.graph (start ∷ []) i
      → i < p.node_count d.graph
  reached-lt start h i (root e) = subst (λ x. x < p.node_count d.graph) (sym (in_one i start e)) h
  reached-lt start h i (onto {j} r e) = p.neighbours-lt d.graph j i e

  -- `reachable` says whether there is a path to another node.
  pub reachable_lem :
      (start target : ℕ)
      → start < p.node_count d.graph
      → target ≢ start
      → (found : Bool) × (reachable p d.graph start target ≡ some found)
        × ((found ≡ true) ↔ Reaches p d.graph (start ∷ []) target)
  unfolding reachable
  reachable_lem start target h ne =
      reachable_loop_lem p d.graph (start ∷ []) target (p.node_count d.graph + 1) (start ∷ [])
        (start ∷ []) (start-IsSearch p d.graph (start ∷ [])) (not_in_one target start ne)
        (omega (
          arith,
          left_out_cons (p.node_count d.graph) start [] h (unfold elem in refl),
          left_out_nil (p.node_count d.graph),
        ))

  module _ (tag ancestor : TagId) (tags : List TagId)
      (holds : (t : TagId)
        → (elem t tags ≡ true) ↔ (
            (i : ℕ) × Reaches p d.graph (or_none p d (index tag) []) i
            × (p.weight d.graph i ≡ t))) where
    none_held : index tag ≡ none → (t : TagId) → elem t tags ≡ false
    none_held e t = eq_of_iff (elem t tags) false (
      (λ h.
          let (i, r, w) = (holds t).0 h in
          absurd (none_reached i (subst (λ o. Reaches p d.graph (or_none p d o []) i) e r))),
      (λ h. cc),
    )

    held :
        (start : ℕ)
        → index tag ≡ some start
        → (t : TagId)
        → (elem t tags ≡ true)
          ↔ ((i : ℕ) × Reaches p d.graph (start ∷ []) i × (p.weight d.graph i ≡ t))
    held start e t = (
      (λ h.
          let (i, r, w) = (holds t).0 h in
          (i, subst (λ o. Reaches p d.graph (or_none p d o []) i) e r, w)),
      (λ (i, r, w).
          (holds t).1 (i, subst (λ o. Reaches p d.graph (or_none p d o []) i) (sym e) r, w)),
    )

    -- A known tag holds itself, and an unknown one nothing.
    self_held : contains p d tag ≡ elem tag tags
    unfolding contains
    self_held = elim (Option-cases (index tag)) [
      | inl e ↦ rw e (sym (none_held e tag))
      | inr (start, e) ↦
          rw e (sym ((held start e tag).1 (start, root (one_in start), indexed.named tag start e)))
    ]

    unknown_held :
        (start : ℕ) → index tag ≡ some start → index ancestor ≡ none → elem ancestor tags ≡ false
    unknown_held start e none_e = eq_of_iff (elem ancestor tags) false (
      (λ h.
          let (i, r, w) = (held start e ancestor).0 h in
          let known : index (p.weight d.graph i) ≡ some i =
            indexed.indexed i (reached-lt start (indexed.in_range tag start e) i r) in
          let known' : index ancestor ≡ some i = subst (λ t. index t ≡ some i) w known in
          absurd (cc)),
      (λ h. cc),
    )

    known_held :
        (start target : ℕ)
        → index tag ≡ some start
        → index ancestor ≡ some target
        → (elem ancestor tags ≡ true) ↔ Reaches p d.graph (start ∷ []) target
    known_held start target e f = (
      (λ h.
          let (i, r, w) = (held start e ancestor).0 h in
          let known : index ancestor ≡ some i =
            subst (λ t. index t ≡ some i) w
              (indexed.indexed i (reached-lt start (indexed.in_range tag start e) i r)) in
          let same : i ≡ target = cc in subst (Reaches p d.graph (start ∷ [])) same r),
      (λ r. (held start e ancestor).1 (target, r, indexed.named ancestor target f)),
    )

    is_a_lem : is_a p d tag ancestor ≡ some (elem ancestor tags)
    unfolding is_a
    is_a_lem = elim (Bool-cases (tag == ancestor)) [
      | inl same ↦
          rw (same, is_a)
            (ap some (self_held ∙ ap (λ t. elem t tags) ((==_iff tag ancestor).0 same)))
      | inr other ↦ elim (Option-cases (index tag)) [
        | inl e ↦ rw (other, e, is_a) (ap some (sym (none_held e ancestor)))
        | inr (start, e) ↦ elim (Option-cases (index ancestor)) [
          | inl f ↦ rw (other, e, f, is_a) (ap some (sym (unknown_held start e f)))
          | inr (target, f) ↦
              let apart : target ≢ start = λ same. absurd (distinct start target e f other same) in
              let (found, g, i) = reachable_lem start target (indexed.in_range tag start e) apart in
              rw (other, e, f, is_a)
                (g
                  ∙ ap some (
                      eq_of_iff found (elem ancestor tags) (
                        (λ h. (known_held start target e f).1 (i.0 h)),
                        (λ h. i.1 ((known_held start target e f).0 h)),
                      )))
        ]
      ]
    ]
      where
        distinct :
            (start target : ℕ)
            → index tag ≡ some start
            → index ancestor ≡ some target
            → (tag == ancestor) ≡ false
            → target ≢ start
        distinct start target e f other same =
            let a : p.weight d.graph start ≡ tag = indexed.named tag start e in
            let b : p.weight d.graph target ≡ ancestor = indexed.named ancestor target f in
            let c : tag ≡ ancestor = sym a ∙ ap (p.weight d.graph) (sym same) ∙ b in
            ground (arith, c, other, ==_refl tag)

  -- On a graph whose map of the nodes is right, is_a and closure return, and is_a says whether
  -- the ancestor is in the closure of the tag alone.
  pub is_a-closure :
      (tag ancestor : TagId)
      → (tags : List TagId) × (closure p d (tag ∷ []) ≡ some tags)
        × (is_a p d tag ancestor ≡ some (elem ancestor tags))
  is_a-closure tag ancestor =
      let (tags, e, holds) = closure_lem p d indexed (tag ∷ []) in
      (tags, e, is_a_lem tag ancestor tags holds)
