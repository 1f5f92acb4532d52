-- ===== src/Meta/Radix/Tests.antt =====
-- The translation of `crates/meta/src/radix.rs` in a tree with two inner levels.
use mimisbrunnr.Base.{ℕ, ◌*◌, ◌<◌, ◌≡◌, refl, [], ◌∷◌, ok, some, arith}
use mimisbrunnr.Meta.Radix.{
  RadixPath, oid_to_radix_path_with_leaf_fanout, radix_path_to_oid_with_leaf_fanout,
}
use mimisbrunnr.Meta.Radix.Translate.{
  leaves, IsPath, radix_path_to_oid-oid_to_radix_path, oid_to_radix_path-radix_path_to_oid,
}

inside : 99999999 < leaves 2 * 2044
unfolding leaves
inside = omega arith

radix_path_to_oid-oid_to_radix_path_example :
    (p : RadixPath) × (oid_to_radix_path_with_leaf_fanout 99999999 2 2044 ≡ ok p)
    × (radix_path_to_oid_with_leaf_fanout p 2 2044 ≡ some 99999999)
    × IsPath p 2 2044
radix_path_to_oid-oid_to_radix_path_example =
    radix_path_to_oid-oid_to_radix_path 99999999 2 2044 (omega arith) (omega arith) (omega arith)
      (omega arith) inside

abbrev path : RadixPath
path = record { leaf_slot = 100; child_path = 7 ∷ 3 ∷ 0 ∷ []; used_levels = 2 }

path-IsPath : IsPath path 2 2044
path-IsPath = record {
  leaf_slot = omega arith;
  used_levels = refl;
  slots = 7 ∷ 3 ∷ [];
  child_path = refl;
  count = refl;
  in_fanout = (omega arith, (omega arith, tt));
}

oid_to_radix_path-radix_path_to_oid_example :
    (oid_local : ℕ) × (radix_path_to_oid_with_leaf_fanout path 2 2044 ≡ some oid_local)
    × (oid_to_radix_path_with_leaf_fanout oid_local 2 2044 ≡ ok path)
oid_to_radix_path-radix_path_to_oid_example =
    oid_to_radix_path-radix_path_to_oid path 2 2044 (omega arith) (omega arith) path-IsPath
