-- ===== src/Storage/Freespace/Tests.antt =====
-- The freespace LRU of `crates/storage/src/freespace.rs` on three keys in two bands.
use mimisbrunnr.Base.{◌≡◌, refl, [], ◌∷◌, true, arith, if◌then◌else◌}
use mimisbrunnr.Storage.Freespace.{
  FreespaceLru, key, key_ord, cmp_key, eq_key, insert, contains, iter,
}
use mimisbrunnr.Storage.Freespace.Laws.{IsSorted, AllInRange, contains-insert}

abbrev three_keys : FreespaceLru
three_keys = record { entries = (key 0 1 4, tt) ∷ (key 0 2 3, tt) ∷ (key 5 0 9, tt) ∷ [] }

three_keys-IsSorted : IsSorted three_keys
unfolding key_ord cmp_key
three_keys-IsSorted = ((refl, (refl, tt)), ((refl, tt), (tt, tt)))

contains-insert_example :
    (contains (insert three_keys 3 0 1) 0 2 3
      ≡ (if eq_key (key 0 2 3) (key 3 0 1) then true else contains three_keys 0 2 3))
    × IsSorted (insert three_keys 3 0 1)
contains-insert_example = contains-insert three_keys 3 0 1 0 2 3 three_keys-IsSorted

in_range : AllInRange (iter three_keys)
unfolding iter
in_range = (omega arith, omega arith, (omega arith, omega arith, (omega arith, omega arith, tt)))
