-- ===== src/Ontology/Dag/Search.antt =====
-- What a search of `crates/ontology/src/implication_dag.rs` visits: the nodes that its roots reach.
use mimisbrunnr.Base.{
  ℕ, ◌+◌, ◌<◌, ◌≡◌, refl, ap, ◌∙◌, true, false, not, ◌&&◌, ◌||◌, List, [], ◌∷◌, length,
  length-append, ◌==◌, ==_iff, ==_refl, elem, elem-append, left_out, left_out_cons, Bool-cases, inl,
  inr, arith,
}
use mimisbrunnr.Ontology.Dag.{Visit, enter}

-- The nodes that the loop over the neighbours enters.
unfoldable pub entered : List ℕ → Visit → Visit
entered [] v = v
entered (j ∷ js) v = elim (elem j v.visited) [
  | true ↦ entered js v
  | false ↦ entered js (enter j v)
]

pub cons_elem : (j x : ℕ) (s : List ℕ) → elem j s ≡ true → (x == j || elem x s) ≡ elem x s
cons_elem j x s h = elim (Bool-cases (x == j)) [
  | inl same ↦
      let e : elem x s ≡ true = ap (λ y. elem y s) ((==_iff x j).0 same) ∙ h in ground (arith, e)
  | inr other ↦ ground (arith, other)
]

pub visited-entered :
    (x : ℕ) (js : List ℕ) (v : Visit)
    → elem x (entered js v).visited ≡ (elem x v.visited || elem x js)
unfolding entered elem
visited-entered x [] v = ground arith
visited-entered x (j ∷ js) v = elim (Bool-cases (elem j v.visited)) [
  | inl old ↦ ground (arith, old, visited-entered x js v, cons_elem j x v.visited old)
  | inr new ↦ ground (arith, new, visited-entered x js (enter j v))
]

pub queue-entered :
    (x : ℕ) (js : List ℕ) (v : Visit)
    → elem x (entered js v).queue ≡ (elem x v.queue || (elem x js && not (elem x v.visited)))
unfolding entered elem
queue-entered x [] v = ground arith
queue-entered x (j ∷ js) v = elim (Bool-cases (elem j v.visited)) [
  | inl old ↦ ground (arith, old, queue-entered x js v, cons_elem j x v.visited old)
  | inr new ↦ elim (Bool-cases (x == j)) [
    | inl same ↦
        let e : elem x v.visited ≡ false = ap (λ y. elem y v.visited) ((==_iff x j).0 same) ∙ new in
        ground (arith, new, e, queue-entered x js (enter j v), elem-append x v.queue (j ∷ []))
    | inr other ↦
        ground (arith, new, other, queue-entered x js (enter j v), elem-append x v.queue (j ∷ []))
  ]
]

pub head_in : (j : ℕ) (js : List ℕ) → elem j (j ∷ js) ≡ true
unfolding elem
head_in j js = ground (arith, ==_refl j)

pub tail_in : (x j : ℕ) (js : List ℕ) → elem x js ≡ true → elem x (j ∷ js) ≡ true
unfolding elem
tail_in x j js h = ground (arith, h)

-- What is left of a search: the nodes to visit, and those in the queue.
abbrev pub left : ℕ → Visit → ℕ
left n v = left_out n v.visited + length v.queue

pub left-entered :
    (n : ℕ) (js : List ℕ) (v : Visit)
    → ((j : ℕ) → elem j js ≡ true → j < n)
    → left n (entered js v) ≡ left n v
unfolding entered
left-entered n [] v h = refl
left-entered n (j ∷ js) v h = elim (Bool-cases (elem j v.visited)) [
  | inl old ↦ ground (arith, old, left-entered n js v (λ x k. h x (tail_in x j js k)))
  | inr new ↦ ground (
    arith,
    new,
    left-entered n js (enter j v) (λ x k. h x (tail_in x j js k)),
    left_out_cons n j v.visited (h j (head_in j js)) new,
    length-append v.queue (j ∷ []),
  )
]
