-- ===== src/Index/RangeIndex/Tests.antt =====
-- Tests of the range index of `crates/index/src/range_index.rs`, and its theorems at concrete inputs.
use mimisbrunnr.Base.{◌≡◌, ◌↔◌, refl, true, not, ◌&&◌, [], ◌∷◌, some, none, ◌==◌, zeros}
use mimisbrunnr.Base.Int.{pos, negsuc}
use mimisbrunnr.Base.OrdMap
use mimisbrunnr.Base.OrdMap.{get}
use mimisbrunnr.Types.Value.{int}
use mimisbrunnr.Index.Bitmap.{list_bitmap, set_of}
use mimisbrunnr.Index.NormalisedKey.{from_value, be_bytes, unsigned, compare_bytes}
use mimisbrunnr.Index.RangeIndex.KeyOrder.{Key, compare_key, key_ord}
use mimisbrunnr.Index.RangeIndex.Map.{
  key_of, within, RangeIndex, insert, with_set, remove, range, join, range_scan,
}
use mimisbrunnr.Index.RangeIndex.Laws.{is_eq, filed, range_scan_lem, filed-remove}
use mimisbrunnr.Index.RangeIndex.Ints.{Filing, index_of, index_of-Ascends}

abbrev filing : Filing
filing = (7, pos 5) ∷ (8, negsuc 2) ∷ (9, pos 5) ∷ []

abbrev index : RangeIndex list_bitmap
index = index_of list_bitmap 1 filing

scan_5 : range_scan list_bitmap index 1 (int (pos 0)) (int (pos 6)) ≡ some (set_of (7 ∷ 9 ∷ []))
unfolding range_scan range join index_of insert OrdMap.insert get key_ord compare_key compare_bytes
    from_value be_bytes unsigned within list_bitmap set_of zeros
scan_5 = refl

-- The bounds of this scan are not in order.
scan_panics : range_scan list_bitmap index 1 (int (pos 6)) (int (pos 5)) ≡ none
unfolding range_scan compare_key compare_bytes from_value be_bytes unsigned zeros
scan_panics = refl

remove_twice : (remove list_bitmap index 1 (int (pos 5)) 7).1 ≡ true
unfolding remove with_set index_of insert OrdMap.insert get key_ord compare_key compare_bytes
    from_value be_bytes unsigned list_bitmap zeros
remove_twice = refl

range_scan_lem_example : (list_bitmap.contains 7 (set_of (7 ∷ 9 ∷ [])) ≡ true) ↔ (
    (k : Key) × (within (key_of 1 (int (pos 0))) (key_of 1 (int (pos 6))) k ≡ true)
    × (filed list_bitmap index k 7 ≡ true))
range_scan_lem_example =
    range_scan_lem list_bitmap index 1 (int (pos 0)) (int (pos 6)) (set_of (7 ∷ 9 ∷ [])) 7
      (index_of-Ascends list_bitmap 1 filing) scan_5

filed-remove_example :
    (filed list_bitmap (remove list_bitmap index 1 (int (pos 5)) 7).0 (key_of 1 (int (pos 5))) 7 ≡ (
      filed list_bitmap index (key_of 1 (int (pos 5))) 7
      && not (is_eq (compare_key (key_of 1 (int (pos 5))) (key_of 1 (int (pos 5)))) && 7 == 7)))
    × ((remove list_bitmap index 1 (int (pos 5)) 7).1
        ≡ filed list_bitmap index (key_of 1 (int (pos 5))) 7)
filed-remove_example =
    filed-remove list_bitmap index 1 (int (pos 5)) 7 (key_of 1 (int (pos 5))) 7
      (index_of-Ascends list_bitmap 1 filing)
