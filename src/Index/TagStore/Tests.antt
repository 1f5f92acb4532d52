-- ===== src/Index/TagStore/Tests.antt =====
-- Tests of `TagStore` of `crates/index/src/tag_store.rs`, and its theorems at concrete inputs.
use mimisbrunnr.Base.{◌+◌, ◌^◌, ◌≡◌, refl, not, ◌&&◌, ◌||◌, [], ◌∷◌, ◌==◌}
use mimisbrunnr.Base.Int.{pos}
use mimisbrunnr.Index.Bitmap.{list_bitmap, set_of}
use mimisbrunnr.Index.TagStore.{
  TagStore, ranked, entry, place, sort_by_score, add_member, remove_member, push_ordered,
  insert_ranked, contains, kind,
}
use mimisbrunnr.Index.TagStore.Members.{is_ordered, is_ranked, contains_after}

abbrev store : TagStore list_bitmap
store = ranked (set_of (4 ∷ 9 ∷ [])) ((9, pos 70) ∷ (4, pos 20) ∷ [])

-- An equal score goes behind.
insert_ranked_70 :
    insert_ranked list_bitmap store 5 (pos 70)
    ≡ ranked (set_of (5 ∷ 4 ∷ 9 ∷ [])) ((9, pos 70) ∷ (5, pos 70) ∷ (4, pos 20) ∷ [])
unfolding insert_ranked sort_by_score place list_bitmap set_of
insert_ranked_70 = refl

contains_after_example :
    (contains list_bitmap (add_member list_bitmap store 9) (2 ^ 32 + 9)
      ≡ (entry (2 ^ 32 + 9) == entry 9 || contains list_bitmap store (2 ^ 32 + 9)))
    × (contains list_bitmap (remove_member list_bitmap store 9).0 (2 ^ 32 + 9)
        ≡ (contains list_bitmap store (2 ^ 32 + 9) && not (entry (2 ^ 32 + 9) == entry 9)))
    × (contains list_bitmap (push_ordered list_bitmap store 9) (2 ^ 32 + 9) ≡ (
        (is_ordered (kind list_bitmap store) && entry (2 ^ 32 + 9) == entry 9)
        || contains list_bitmap store (2 ^ 32 + 9)))
    × (contains list_bitmap (insert_ranked list_bitmap store 9 (pos 1)) (2 ^ 32 + 9) ≡ (
        (is_ranked (kind list_bitmap store) && entry (2 ^ 32 + 9) == entry 9)
        || contains list_bitmap store (2 ^ 32 + 9)))
contains_after_example = contains_after list_bitmap store 9 (pos 1) (2 ^ 32 + 9)
