-- ===== src/Ontology/Dag/Laws.antt =====
-- `closure` and `is_a` of `crates/ontology/src/implication_dag.rs` and the paths of the graph.
use mimisbrunnr.Base.{
  ℕ, ◌+◌, ◌<◌, ◌≡◌, ◌≢◌, refl, sym, ◌∙◌, Bool, true, false, ◌||◌, ◌↔◌, List, [], ◌∷◌, Option, none,
  some, elem, elem-append, left_out, left_out_cons, left_out_nil, length-append, Bool-cases,
  Option-cases, inl, inr, arith,
}
use mimisbrunnr.Types.ObjectId.{TagId}
use mimisbrunnr.Ontology.Graph.{DiGraph}
use mimisbrunnr.Ontology.Dag.{Visit, enter, insert_tag, ImplicationDag, index_of, seeds, closure}
use mimisbrunnr.Ontology.Dag.Search.{left, cons_elem}
use mimisbrunnr.Ontology.Dag.Reach.{Reaches, root, IsSearch}
use mimisbrunnr.Ontology.Dag.Loops.{Names, enter-Names, closure_loop_lem}

old_root :
    (x i : ℕ) (seen rs : List ℕ)
    → elem i seen ≡ true
    → (elem x seen || elem x rs) ≡ (elem x seen || elem x (i ∷ rs))
unfolding elem
old_root x i seen rs h = ground (arith, cons_elem i x seen h)

new_root :
    (x i : ℕ) (seen rs : List ℕ)
    → (elem x (i ∷ seen) || elem x rs) ≡ (elem x seen || elem x (i ∷ rs))
unfolding elem
new_root x i seen rs = ground arith

none_in : (x : ℕ) → elem x [] ≢ true
unfolding elem
none_in x h = cc

nil_or : (x : ℕ) (rs : List ℕ) → (elem x [] || elem x rs) ≡ elem x rs
unfolding elem
nil_or x rs = refl

clash : (b : Bool) → b ≡ true → b ≢ false
clash b h k = cc

module _ (p : DiGraph) where
  -- The map of the nodes agrees with the weights of the graph.
  pub record IsIndexed (d : ImplicationDag p) : Type 0 where
    pub in_range : (t : TagId) (i : ℕ) → index_of p t d.nodes ≡ some i → i < p.node_count d.graph
    pub named : (t : TagId) (i : ℕ) → index_of p t d.nodes ≡ some i → p.weight d.graph i ≡ t
    pub indexed :
        (i : ℕ) → i < p.node_count d.graph → index_of p (p.weight d.graph i) d.nodes ≡ some i

  module _ (d : ImplicationDag p) where
    abbrev pub or_none : Option ℕ → List ℕ → List ℕ
    or_none none is = is
    or_none (some i) is = i ∷ is

    -- The nodes of the tags that the graph has.
    abbrev pub roots_of : List TagId → List ℕ
    roots_of [] = []
    roots_of (t ∷ ts) = or_none (index_of p t d.nodes) (roots_of ts)

    module _ (indexed : IsIndexed d) (roots : List ℕ) where
      -- The state of the loop over the direct tags.
      record IsSeed (s : Visit × List TagId) : Type 0 where
        same : (x : ℕ) → elem x s.0.queue ≡ elem x s.0.visited
        names : Names p d.graph roots s.0 s.1
        fits : left (p.node_count d.graph) s.0 ≡ p.node_count d.graph

      enter-IsSeed :
          (t : TagId) (i : ℕ) (v : Visit) (r : List TagId)
          → index_of p t d.nodes ≡ some i
          → elem i v.visited ≡ false
          → IsSeed (v, r)
          → IsSeed (enter i v, insert_tag t r)
      enter-IsSeed t i v r e new s = record {
        same = λ x. elem-append x v.queue (i ∷ []) ∙ (unfold elem in ground (arith, s.same x));
        names = enter-Names p d.graph roots i t v r (indexed.named t i e) s.names;
        fits = omega (
          arith,
          s.fits,
          length-append v.queue (i ∷ []),
          left_out_cons (p.node_count d.graph) i v.visited (indexed.in_range t i e) new,
        );
      }

      seeds-IsSeed :
          (ts : List TagId) (v : Visit) (r : List TagId)
          → IsSeed (v, r)
          → IsSeed (seeds p d ts (v, r))
            × ((x : ℕ)
                → elem x (seeds p d ts (v, r)).0.visited
                  ≡ (elem x v.visited || elem x (roots_of ts)))
      unfolding seeds
      seeds-IsSeed [] v r s = (s, λ x. unfold elem in ground arith)
      seeds-IsSeed (t ∷ ts) v r s = elim (Option-cases (index_of p t d.nodes)) [
        | inl e ↦ rw (e, seeds) (seeds-IsSeed ts v r s)
        | inr (i, e) ↦ elim (Bool-cases (elem i v.visited)) [
          | inl old ↦
              let (a, f) = seeds-IsSeed ts v r s in
              rw (e, old, seeds) (a, λ x. f x ∙ old_root x i v.visited (roots_of ts) old)
          | inr new ↦
              let (a, f) =
                seeds-IsSeed ts (enter i v) (insert_tag t r) (enter-IsSeed t i v r e new s) in
              rw (e, new, seeds) (a, λ x. f x ∙ new_root x i v.visited (roots_of ts))
        ]
      ]

    module _ (indexed : IsIndexed d) (direct : List TagId) where
      -- The search that the loop over the direct tags leaves.
      abbrev seeded : Visit × List TagId
      seeded = seeds p d direct (record { visited = []; queue = [] }, [])

      seeded_lem :
          IsSeed indexed (roots_of direct) seeded
          × ((x : ℕ) → elem x seeded.0.visited ≡ elem x (roots_of direct))
      seeded_lem =
          let (s, f) =
            seeds-IsSeed indexed (roots_of direct) direct (record { visited = []; queue = [] }) []
              (record {
                same = λ x. refl;
                names = record {
                  sound = λ t h. absurd (none_in t h);
                  complete = λ i h. absurd (none_in i h);
                };
                fits = unfold left_out elem in omega (arith, left_out_nil (p.node_count d.graph));
              }) in
          (s, λ x. f x ∙ nil_or x (roots_of direct))

      seeded-IsSearch : IsSearch p d.graph (roots_of direct) seeded.0
      seeded-IsSearch =
          let (s, f) = seeded_lem in
          record {
            reached = λ x h. root (sym (f x) ∙ h);
            starts = λ x h. f x ∙ h;
            queued = λ x h. sym (s.same x) ∙ h;
            settled = λ x j h k e. absurd (clash (elem x seeded.0.queue) (s.same x ∙ h) k);
          }

      -- On a graph whose map of the nodes is right, closure returns, and its result holds just
      -- the tags of the nodes on a path from a direct tag that the graph has.
      pub closure_lem :
          (tags : List TagId) × (closure p d direct ≡ some tags)
          × ((t : TagId)
              → (elem t tags ≡ true)
                ↔ ((i : ℕ) × Reaches p d.graph (roots_of direct) i × (p.weight d.graph i ≡ t)))
      unfolding closure
      closure_lem =
          let (s, f) = seeded_lem in
          closure_loop_lem p d.graph (roots_of direct) (p.node_count d.graph + 1) seeded.0.visited
            seeded.0.queue seeded.1 seeded-IsSearch s.names (omega (arith, s.fits))
