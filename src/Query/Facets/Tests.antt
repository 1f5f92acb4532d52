-- ===== src/Query/Facets/Tests.antt =====
-- Tests of `FacetedExplorer` of `crates/query/src/facets.rs`, and its theorem at a concrete input.
use mimisbrunnr.Base.{ℕ, ◌≡◌, refl, List, [], ◌∷◌, none, take, keep, elem}
use mimisbrunnr.Types.ObjectId.{TagId}
use mimisbrunnr.Types.Query.{has_tag}
use mimisbrunnr.Index.Bitmap.{list_bitmap, set_of}
use mimisbrunnr.Query.Executor.{value, Indexes, eval_has_tag, evaluate}
use mimisbrunnr.Query.Facets.{FacetCount, ranks, place, sort_facets, rows, facets_for, explore}
use mimisbrunnr.Query.Facets.Ranking.{IsRanking, lists, shares, explore_lem}

abbrev pool : Indexes list_bitmap
pool = record {
  stores =
      (3, set_of (5 ∷ []))
      ∷ (1, set_of (5 ∷ 6 ∷ 7 ∷ []))
      ∷ (2, set_of (7 ∷ 8 ∷ 6 ∷ []))
      ∷ (4, set_of (9 ∷ []))
      ∷ [];
  kv_lookup = λ key v. set_of [];
  range_lookup = λ key v. set_of [];
  range_scan = λ key low high. none;
  objects = [];
  materialise = λ t. t ∷ [];
}

evaluate_1 : evaluate list_bitmap pool (has_tag 1) ≡ value (set_of (5 ∷ 6 ∷ 7 ∷ []))
unfolding evaluate eval_has_tag
evaluate_1 = refl

explore_1 :
    explore list_bitmap pool (has_tag 1) 2
    ≡ value (record { tag = 1; count = 3 } ∷ record { tag = 2; count = 2 } ∷ [])
unfolding explore facets_for rows sort_facets place ranks evaluate eval_has_tag list_bitmap set_of
    keep elem
explore_1 = refl

explore_lem_example :
    (fs : List FacetCount) × (explore list_bitmap pool (has_tag 1) 2 ≡ value (take 2 fs))
    × IsRanking fs
    × ((t : TagId) (n : ℕ)
        → lists fs t n ≡ shares list_bitmap (set_of (5 ∷ 6 ∷ 7 ∷ [])) pool.stores t n)
explore_lem_example =
    explore_lem list_bitmap pool (has_tag 1) 2 (set_of (5 ∷ 6 ∷ 7 ∷ [])) evaluate_1
