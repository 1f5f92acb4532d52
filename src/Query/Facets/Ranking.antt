-- ===== src/Query/Facets/Ranking.antt =====
-- What `explore` of `crates/query/src/facets.rs` returns: the first facets of a ranking of all of them.
use mimisbrunnr.Base.{
  ℕ, ◌<◌, ◌≤◌, ◌⊎◌, ◌≡◌, refl, ap, ◌∙◌, Bool, true, false, not, ◌&&◌, ◌||◌, List, [], ◌∷◌, ◌==◌,
  take, Bool-cases, inl, inr, arith,
}
use mimisbrunnr.Types.ObjectId.{TagId}
use mimisbrunnr.Types.Query.{Query}
use mimisbrunnr.Index.Bitmap.{Bitmap}
use mimisbrunnr.Query.Executor.{value, Indexes, evaluate}
use mimisbrunnr.Query.Facets.{FacetCount, ranks, place, sort_facets, rows, facets_for, explore}

-- A greater count, or the same one and no greater tag.
abbrev pub Before : FacetCount → FacetCount → Type 0
Before f g = (g.count < f.count) ⊎ ((f.count ≡ g.count) × (f.tag ≤ g.tag))

-- The facet stands before each of the list.
abbrev pub Leads : FacetCount → List FacetCount → Type 0
Leads f [] = Unit {0}
Leads f (g ∷ gs) = Before f g × Leads f gs

abbrev pub IsRanking : List FacetCount → Type 0
IsRanking [] = Unit {0}
IsRanking (f ∷ fs) = Leads f fs × IsRanking fs

-- The list has the tag with the count.
abbrev pub lists : List FacetCount → TagId → ℕ → Bool
lists [] t n = false
lists (f ∷ fs) t n = (f.tag == t && f.count == n) || lists fs t n

Before-ranks : (f g : FacetCount) → ranks f g ≡ true → Before f g
unfolding ranks
Before-ranks f g a = ground (arith, a)

Before-trans : (f g h : FacetCount) → Before f g → Before g h → Before f h
Before-trans f g h a c = ground (arith, a, c)

ranks_total : (f g : FacetCount) → ranks f g ≡ false → Before g f
unfolding ranks
ranks_total f g a = ground (arith, a)

Leads-trans : (f g : FacetCount) (hs : List FacetCount) → Before f g → Leads g hs → Leads f hs
Leads-trans f g [] a l = tt
Leads-trans f g (h ∷ hs) a l = (Before-trans f g h a l.0, Leads-trans f g hs a l.1)

Leads-place :
    (f g : FacetCount) (hs : List FacetCount) → Before f g → Leads f hs → Leads f (place g hs)
unfolding place
Leads-place f g [] a l = (a, tt)
Leads-place f g (h ∷ hs) a l = elim (Bool-cases (ranks g h)) [
  | inl here ↦ rw (here, place) (a, l)
  | inr later ↦ rw (later, place) (l.0, Leads-place f g hs a l.1)
]

place-IsRanking : (f : FacetCount) (gs : List FacetCount) → IsRanking gs → IsRanking (place f gs)
unfolding place
place-IsRanking f [] r = (tt, tt)
place-IsRanking f (g ∷ gs) r = elim (Bool-cases (ranks f g)) [
  | inl here ↦
      rw (here, place) ((Before-ranks f g here, Leads-trans f g gs (Before-ranks f g here) r.0), r)
  | inr later ↦
      rw (later, place) (Leads-place g f gs (ranks_total f g later) r.0, place-IsRanking f gs r.1)
]

sort_facets-IsRanking : (fs : List FacetCount) → IsRanking (sort_facets fs)
unfolding sort_facets
sort_facets-IsRanking [] = tt
sort_facets-IsRanking (f ∷ fs) = place-IsRanking f (sort_facets fs) (sort_facets-IsRanking fs)

lists-place :
    (f : FacetCount) (gs : List FacetCount) (t : TagId) (n : ℕ)
    → lists (place f gs) t n ≡ ((f.tag == t && f.count == n) || lists gs t n)
unfolding place
lists-place f [] t n = refl
lists-place f (g ∷ gs) t n = ground (arith, lists-place f gs t n)

lists-sort_facets :
    (fs : List FacetCount) (t : TagId) (n : ℕ) → lists (sort_facets fs) t n ≡ lists fs t n
unfolding sort_facets
lists-sort_facets [] t n = refl
lists-sort_facets (f ∷ fs) t n =
    lists-place f (sort_facets fs) t n
    ∙ ap (λ c. (f.tag == t && f.count == n) || c) (lists-sort_facets fs t n)

module _ (b : Bitmap) where
  -- Some store of the tag shares that number of objects, one at least, with the selection.
  abbrev pub shares : b.Set → List (TagId × b.Set) → TagId → ℕ → Bool
  shares selection [] t n = false
  shares selection ((u, s) ∷ stores) t n =
      (u == t && b.len (b.intersect selection s) == n && not (n == 0))
      || shares selection stores t n

  lists-rows :
      (selection : b.Set) (stores : List (TagId × b.Set)) (t : TagId) (n : ℕ)
      → lists (rows b selection stores) t n ≡ shares selection stores t n
  unfolding rows
  lists-rows selection [] t n = refl
  lists-rows selection ((u, s) ∷ stores) t n = ground (arith, lists-rows selection stores t n)

  -- Where the query has a result, explore returns the first max_facets of a list in which no
  -- facet stands behind one of a smaller count, or of the same count and a greater tag, and which
  -- lists a tag with a count just where a store of the tag shares that number of objects, one at
  -- least, with the result.
  pub explore_lem :
      (x : Indexes b) (base : Query) (max_facets : ℕ) (selection : b.Set)
      → evaluate b x base ≡ value selection
      → (fs : List FacetCount) × (explore b x base max_facets ≡ value (take max_facets fs))
        × IsRanking fs
        × ((t : TagId) (n : ℕ) → lists fs t n ≡ shares selection x.stores t n)
  unfolding explore facets_for
  explore_lem x base max_facets selection e = (
    sort_facets (rows b selection x.stores),
    rw (e, explore) refl,
    sort_facets-IsRanking (rows b selection x.stores),
    λ t n. lists-sort_facets (rows b selection x.stores) t n ∙ lists-rows selection x.stores t n,
  )
