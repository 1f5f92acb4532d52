-- ===== src/Ontology/Dag/Loops.antt =====
-- The loops of `crates/ontology/src/implication_dag.rs`: what they return, and that they return.
use mimisbrunnr.Base.{
  ℕ, zero, suc, ◌<◌, ◌≡◌, refl, sym, ap, subst, ◌∙◌, Bool, true, false, ◌||◌, ◌↔◌, List, [], ◌∷◌,
  none, some, if◌then◌else◌, ◌==◌, ==_iff, ==_refl, elem, Bool-cases, inl, inr, arith,
}
use mimisbrunnr.Types.ObjectId.{TagId}
use mimisbrunnr.Ontology.Graph.{DiGraph}
use mimisbrunnr.Ontology.Dag.{Visit, enter, insert_tag, scan, reachable_loop, expand, closure_loop}
use mimisbrunnr.Ontology.Dag.Search.{entered, visited-entered, left, left-entered, head_in, tail_in}
use mimisbrunnr.Ontology.Dag.Reach.{Reaches, onto, IsSearch, next-IsSearch, visited-Reaches}

pub elem-insert_tag :
    (x t : TagId) (s : List TagId) → elem x (insert_tag t s) ≡ (x == t || elem x s)
unfolding elem insert_tag
elem-insert_tag x t [] = refl
elem-insert_tag x t (u ∷ s) = elim (Bool-cases (t == u)) [
  | inl same ↦ let e : t ≡ u = (==_iff t u).0 same in ground (arith, e)
  | inr other ↦ ground (arith, other, elem-insert_tag x t s)
]

module _ (p : DiGraph) where
  scan_lem :
      (target : ℕ) (js : List ℕ) (v : Visit)
      → scan p target js v ≡ (if elem target js then none else some (entered js v))
  unfolding scan entered elem
  scan_lem target [] v = refl
  scan_lem target (j ∷ js) v = elim (Bool-cases (elem j v.visited)) [
    | inl old ↦ ground (arith, old, scan_lem target js v)
    | inr new ↦ ground (arith, new, scan_lem target js (enter j v))
  ]

  module _ (g : p.Graph) (roots : List ℕ) where
    smaller :
        (seen : List ℕ) (node : ℕ) (rest : List ℕ) (fuel : ℕ)
        → left (p.node_count g) (record { visited = seen; queue = node ∷ rest }) < suc fuel
        → left
            (p.node_count g)
            (entered (p.neighbours g node) (record { visited = seen; queue = rest }))
          < fuel
    smaller seen node rest fuel h = omega (
      arith,
      left-entered (p.node_count g) (p.neighbours g node) (record { visited = seen; queue = rest })
          (p.neighbours-lt g node),
      h,
    )

    -- The loop of `reachable` says whether a root reaches the target, which is not visited yet.
    pub reachable_loop_lem :
        (target fuel : ℕ) (seen queue : List ℕ)
        → IsSearch p g roots (record { visited = seen; queue = queue })
        → elem target seen ≡ false
        → left (p.node_count g) (record { visited = seen; queue = queue }) < fuel
        → (found : Bool) × (reachable_loop p g target fuel
              (record { visited = seen; queue = queue })
            ≡ some found)
          × ((found ≡ true) ↔ Reaches p g roots target)
    unfolding reachable_loop
    reachable_loop_lem target zero seen queue s out h = absurd (omega (arith, h))
    reachable_loop_lem target (suc fuel) seen [] s out h =
        (false, refl, ((λ e. cc), (λ r. sym out ∙ (visited-Reaches p g roots seen target s).1 r)))
    reachable_loop_lem target (suc fuel) seen (node ∷ rest) s out h =
        let js = p.neighbours g node in
        let popped : Visit = record { visited = seen; queue = rest } in
        elim (Bool-cases (elem target js)) [
          | inl hit ↦
              let scanned : scan p target js popped ≡ none =
                scan_lem target js popped
                ∙ ap (λ b. if b then none else some (entered js popped)) hit in
              (
                true,
                rw (scanned, reachable_loop) refl,
                ((λ e. onto (s.reached node (s.queued node (head_in node rest))) hit), (λ r. refl)),
              )
          | inr miss ↦
              let scanned : scan p target js popped ≡ some (entered js popped) =
                scan_lem target js popped
                ∙ ap (λ b. if b then none else some (entered js popped)) miss in
              let (found, e, i) =
                reachable_loop_lem target fuel (entered js popped).visited (entered js popped).queue
                  (next-IsSearch p g roots seen node rest s)
                  (ground (arith, visited-entered target js popped, out, miss))
                  (smaller seen node rest fuel h) in
              (found, rw (scanned, reachable_loop) e, i)
        ]

    -- The result holds the tags of the visited nodes.
    pub record Names (v : Visit) (r : List TagId) : Type 0 where
      pub sound :
          (t : TagId) → elem t r ≡ true → (i : ℕ) × (elem i v.visited ≡ true) × (p.weight g i ≡ t)
      pub complete : (i : ℕ) → elem i v.visited ≡ true → elem (p.weight g i) r ≡ true

    -- Entering a node and its tag.
    pub enter-Names :
        (j : ℕ) (t : TagId) (v : Visit) (r : List TagId)
        → p.weight g j ≡ t
        → Names v r
        → Names (enter j v) (insert_tag t r)
    enter-Names j t v r e n = record { sound = found; complete = kept }
      where
        found :
            (u : TagId)
            → elem u (insert_tag t r) ≡ true
            → (i : ℕ) × (elem i (j ∷ v.visited) ≡ true) × (p.weight g i ≡ u)
        found u h = elim (Bool-cases (u == t)) [
          | inl same ↦ (j, head_in j v.visited, e ∙ sym ((==_iff u t).0 same))
          | inr other ↦
              let (i, k, w) = n.sound u (ground (arith, elem-insert_tag u t r, other, h)) in
              (i, tail_in i j v.visited k, w)
        ]

        kept : (i : ℕ) → elem i (j ∷ v.visited) ≡ true → elem (p.weight g i) (insert_tag t r) ≡ true
        kept i h = elim (Bool-cases (i == j)) [
          | inl same ↦
              let w : p.weight g i ≡ t = ap (p.weight g) ((==_iff i j).0 same) ∙ e in
              elem-insert_tag (p.weight g i) t r ∙ ground (arith, w, ==_refl t)
          | inr other ↦
              let old : elem i v.visited ≡ true = unfold elem in ground (arith, h, other) in
              ground (arith, elem-insert_tag (p.weight g i) t r, n.complete i old)
        ]

    expand-entered :
        (js : List ℕ) (v : Visit) (r : List TagId) → (expand p g js (v, r)).0 ≡ entered js v
    unfolding expand entered
    expand-entered [] v r = refl
    expand-entered (j ∷ js) v r = elim (Bool-cases (elem j v.visited)) [
      | inl old ↦ rw (old, expand, entered) (expand-entered js v r)
      | inr new ↦
          rw (new, expand, entered) (expand-entered js (enter j v) (insert_tag (p.weight g j) r))
    ]

    expand-Names :
        (js : List ℕ) (v : Visit) (r : List TagId)
        → Names v r
        → Names (expand p g js (v, r)).0 (expand p g js (v, r)).1
    unfolding expand
    expand-Names [] v r n = n
    expand-Names (j ∷ js) v r n = elim (Bool-cases (elem j v.visited)) [
      | inl old ↦ rw (old, expand) (expand-Names js v r n)
      | inr new ↦
          rw (new, expand)
            (expand-Names js (enter j v) (insert_tag (p.weight g j) r)
              (enter-Names j (p.weight g j) v r refl n))
    ]

    -- The loop of `closure` returns the tags of the nodes that the roots reach.
    pub closure_loop_lem :
        (fuel : ℕ) (seen queue : List ℕ) (r : List TagId)
        → IsSearch p g roots (record { visited = seen; queue = queue })
        → Names (record { visited = seen; queue = queue }) r
        → left (p.node_count g) (record { visited = seen; queue = queue }) < fuel
        → (tags : List TagId) × (closure_loop p g fuel (record { visited = seen; queue = queue }, r)
            ≡ some tags)
          × ((t : TagId)
              → (elem t tags ≡ true) ↔ ((i : ℕ) × Reaches p g roots i × (p.weight g i ≡ t)))
    unfolding closure_loop
    closure_loop_lem zero seen queue r s n h = absurd (omega (arith, h))
    closure_loop_lem (suc fuel) seen [] r s n h = (
      r,
      refl,
      λ t. (
        (λ k. let (i, e, w) = n.sound t k in (i, (visited-Reaches p g roots seen i s).0 e, w)),
        (λ (i, e, w).
            subst (λ x. elem x r ≡ true) w
              (n.complete i ((visited-Reaches p g roots seen i s).1 e))),
      ),
    )
    closure_loop_lem (suc fuel) seen (node ∷ rest) r s n h =
        let js = p.neighbours g node in
        let popped : Visit = record { visited = seen; queue = rest } in
        let e = expand-entered js popped r in
        closure_loop_lem fuel (expand p g js (popped, r)).0.visited
          (expand p g js (popped, r)).0.queue (expand p g js (popped, r)).1
          (subst (IsSearch p g roots) (sym e) (next-IsSearch p g roots seen node rest s))
          (expand-Names js popped r (record { sound = n.sound; complete = n.complete }))
          (subst (λ v. left (p.node_count g) v < fuel) (sym e) (smaller seen node rest fuel h))
