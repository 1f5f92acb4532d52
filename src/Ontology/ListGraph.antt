-- ===== src/Ontology/ListGraph.antt =====
-- A graph of `crates/ontology` as a list of tags and a list of edges: an instance of the interface.
use mimisbrunnr.Base.{
  ℕ, zero, suc, ◌-◌, ◌<◌, ◌≡◌, refl, Bool, true, false, not, ◌&&◌, ◌||◌, List, [], ◌∷◌, ◌++◌,
  length, length-append, get_or, set, take, Option, none, some, if◌then◌else◌, ltb, ltb→lt, ◌==◌,
  ==_iff, elem, Bool-cases, inl, inr, arith,
}
use mimisbrunnr.Ontology.Graph.{DiGraph}

pub record Lists : Type 0 where
  pub weights : List ℕ
  pub edges : List (ℕ × ℕ)

-- The ends of the edges from a node.
unfoldable pub targets : ℕ → ℕ → List (ℕ × ℕ) → List ℕ
targets n i [] = []
targets n i ((a, b) ∷ es) = elim (i == a && ltb b n) [
  | true ↦ b ∷ targets n i es
  | false ↦ targets n i es
]

listed : ℕ → ℕ → List (ℕ × ℕ) → Bool
listed x y [] = false
listed x y ((a, b) ∷ es) = (x == a && y == b) || listed x y es

unfoldable pub without : ℕ → ℕ → List (ℕ × ℕ) → List (ℕ × ℕ)
without i j [] = []
without i j ((a, b) ∷ es) = elim (a == i && b == j) [
  | true ↦ without i j es
  | false ↦ (a, b) ∷ without i j es
]

elem-targets :
    (n x y : ℕ) (es : List (ℕ × ℕ)) → elem y (targets n x es) ≡ (listed x y es && ltb y n)
unfolding targets listed elem
elem-targets n x y [] = refl
elem-targets n x y ((a, b) ∷ es) = elim (Bool-cases (y == b)) [
  | inl same ↦ let e : y ≡ b = (==_iff y b).0 same in ground (arith, e, elem-targets n x y es)
  | inr other ↦ ground (arith, other, elem-targets n x y es)
]

listed-without :
    (i j x y : ℕ) (es : List (ℕ × ℕ))
    → listed x y (without i j es) ≡ (listed x y es && not (x == i && y == j))
unfolding listed without
listed-without i j x y [] = refl
listed-without i j x y ((a, b) ∷ es) = elim (Bool-cases (x == a && y == b)) [
  | inl same ↦
      let e : x ≡ a = (==_iff x a).0 (ground (arith, same)) in
      let f : y ≡ b = (==_iff y b).0 (ground (arith, same)) in
      ground (arith, e, f, listed-without i j x y es)
  | inr other ↦ ground (arith, other, listed-without i j x y es)
]

pub target-lt : (es : List (ℕ × ℕ)) (n i j : ℕ) → elem j (targets n i es) ≡ true → j < n
target-lt es n i j h = ltb→lt j n (ground (arith, elem-targets n i j es, h))

pub targets-add :
    (es : List (ℕ × ℕ)) (n i j x y : ℕ)
    → j < n
    → elem y (targets n x ((i, j) ∷ es)) ≡ (elem y (targets n x es) || (x == i && y == j))
unfolding listed
targets-add es n i j x y h = elim (Bool-cases (y == j)) [
  | inl same ↦
      let e : y ≡ j = (==_iff y j).0 same in
      ground (arith, elem-targets n x y ((i, j) ∷ es), elem-targets n x y es, e, h)
  | inr other ↦ ground (arith, elem-targets n x y ((i, j) ∷ es), elem-targets n x y es, other)
]

pub targets-without :
    (es : List (ℕ × ℕ)) (n i j x y : ℕ)
    → elem y (targets n x (without i j es)) ≡ (elem y (targets n x es) && not (x == i && y == j))
targets-without es n i j x y =
    ground
      (arith, elem-targets n x y es, elem-targets n x y (without i j es), listed-without i j x y es)

pub get_or-snoc :
    (ws : List ℕ) (t i : ℕ)
    → get_or (ws ++ (t ∷ [])) i 0 ≡ (if i == length ws then t else get_or ws i 0)
get_or-snoc [] t zero = refl
get_or-snoc [] t (suc i) = ground arith
get_or-snoc (w ∷ ws) t zero = ground arith
get_or-snoc (w ∷ ws) t (suc i) = ground (arith, get_or-snoc ws t i)

-- The start of the first edge that does not ascend.
unfoldable pub descent : List (ℕ × ℕ) → Option ℕ
descent [] = none
descent ((a, b) ∷ es) = if ltb a b then descent es else some a

origins : ℕ → List (ℕ × ℕ) → List ℕ
origins i [] = []
origins i ((a, b) ∷ es) = if b == i then a ∷ origins i es else origins i es

-- The last node takes the place of the removed one.
moved : ℕ → ℕ → List (ℕ × ℕ) → List (ℕ × ℕ)
moved i last [] = []
moved i last ((a, b) ∷ es) =
    let rest = moved i last es in
    if a == i || b == i
    then rest
    else (if a == last then i else a, if b == last then i else b) ∷ rest

unfoldable pub list_graph : DiGraph
unfolding targets without descent moved origins
list_graph = record {
  Graph = Lists;
  node_count = λ g. length g.weights;
  weight = λ g i. get_or g.weights i 0;
  neighbours = λ g i. targets (length g.weights) i g.edges;
  sources = λ g i. origins i g.edges;
  add_node = λ t g. record g { weights = g.weights ++ (t ∷ []) };
  remove_node = λ i g.
      let last = length g.weights - 1 in
      record {
        weights = take last (set g.weights i (get_or g.weights last 0));
        edges = moved i last g.edges;
      };
  has_edge = λ i j g. elem j (targets (length g.weights) i g.edges);
  add_edge = λ i j g. record g { edges = (i, j) ∷ g.edges };
  remove_edge = λ i j g. record g { edges = without i j g.edges };
  cycle_node = λ g. descent g.edges;
  neighbours-lt = λ g i j h. target-lt g.edges (length g.weights) i j h;
  node_count-add_node = λ t g. length-append g.weights (t ∷ []);
  weight-add_node = λ t g i. get_or-snoc g.weights t i;
  node_count-add_edge = λ i j g. refl;
  weight-add_edge = λ i j g x. refl;
  neighbours-add_edge = λ i j g x y h. targets-add g.edges (length g.weights) i j x y h;
  has_edge_lem = λ i j g. refl;
  node_count-remove_edge = λ i j g. refl;
  weight-remove_edge = λ i j g x. refl;
  neighbours-remove_edge = λ i j g x y. targets-without g.edges (length g.weights) i j x y;
}

unfoldable pub graph_of : List ℕ → List (ℕ × ℕ) → list_graph.Graph
unfolding list_graph
graph_of weights edges = record { weights = weights; edges = edges }
