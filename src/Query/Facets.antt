-- ===== src/Query/Facets.antt =====
-- `FacetedExplorer` of `crates/index/src/faceted.rs` and `crates/query/src/facets.rs`: the tags that share
-- objects with the result of a query.
pub mod Ranking
mod Tests
use mimisbrunnr.Base.{
  ℕ, Bool, true, false, ◌&&◌, ◌||◌, List, [], ◌∷◌, if◌then◌else◌, ltb, leb, ◌==◌, take,
}
use mimisbrunnr.Types.ObjectId.{TagId}
use mimisbrunnr.Types.Query.{Query}
use mimisbrunnr.Index.Bitmap.{Bitmap}
use mimisbrunnr.Query.Executor.{Eval, value, Indexes, ◌>>=◌, evaluate}

pub record FacetCount : Type 0 where
  pub tag : TagId
  pub count : ℕ

-- The comparison by descending count, then ascending tag, is not `Greater`.
unfoldable pub ranks : FacetCount → FacetCount → Bool
ranks f g = ltb g.count f.count || (f.count == g.count && leb f.tag g.tag)

-- `sort_by`, a stable sort.
unfoldable pub place : FacetCount → List FacetCount → List FacetCount
place f [] = f ∷ []
place f (g ∷ gs) = if ranks f g then f ∷ g ∷ gs else g ∷ place f gs

unfoldable pub sort_facets : List FacetCount → List FacetCount
unfolding place
sort_facets [] = []
sort_facets (f ∷ fs) = place f (sort_facets fs)

module _ (b : Bitmap) where
  -- The `filter_map` over the stores.
  unfoldable pub rows : b.Set → List (TagId × b.Set) → List FacetCount
  rows selection [] = []
  rows selection ((t, s) ∷ stores) =
      let count = b.len (b.intersect selection s) in
      let rest = rows selection stores in
      if count == 0 then rest else record { tag = t; count = count } ∷ rest

  unfoldable pub facets_for : List (TagId × b.Set) → b.Set → List FacetCount
  unfolding rows sort_facets
  facets_for stores selection = sort_facets (rows selection stores)

  unfoldable pub explore : Indexes b → Query → ℕ → Eval (List FacetCount)
  unfolding facets_for
  explore x base max_facets =
      evaluate b x base >>= λ selection. value (take max_facets (facets_for x.stores selection))
