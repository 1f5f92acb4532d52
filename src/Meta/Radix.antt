-- ===== src/Meta/Radix.antt =====
-- `crates/meta/src/radix.rs`: the translation between a local object id and a path in the radix tree.
pub mod Translate
mod Tests
use mimisbrunnr.Base.{
  ℕ, zero, suc, ◌+◌, ◌-◌, ◌*◌, ◌/◌, ◌%◌, ◌^◌, List, [], ◌∷◌, ◌++◌, take, replicate, Option, none,
  some, Result, ok, err, if◌then◌else◌, ltb, ◌==◌,
}

abbrev pub max_levels : ℕ
max_levels = 3

abbrev pub leaf_records : ℕ
leaf_records = 2044

abbrev pub leaf_records_location : ℕ
leaf_records_location = 5440

abbrev pub inner_fanout : ℕ
inner_fanout = 16380

-- `MetaError::OidOutOfRange`, the one error of this part.
pub data RadixError : Type 0 where
  oid_out_of_range : (oid_local root_level : ℕ) → RadixError

pub record RadixPath : Type 0 where
  pub leaf_slot : ℕ
  pub child_path : List ℕ
  pub used_levels : ℕ

-- The loop over the slots: the digits that it stores, and what is left of `idx`.
unfoldable pub fill_slots : ℕ → ℕ → List ℕ × ℕ
fill_slots zero idx = ([], idx)
fill_slots (suc n) idx =
    let (slots, rest) = fill_slots n (idx / inner_fanout) in
    (idx % inner_fanout % 2 ^ 16 ∷ slots, rest)

unfoldable pub oid_to_radix_path_with_leaf_fanout : ℕ → ℕ → ℕ → Result RadixError RadixPath
unfolding fill_slots
oid_to_radix_path_with_leaf_fanout oid_local root_level leaf_fanout =
    if ltb max_levels root_level
    then err (oid_out_of_range oid_local root_level)
    else let (slots, idx) = fill_slots root_level (oid_local / leaf_fanout) in
      if idx == 0
      then ok (record {
        leaf_slot = oid_local % leaf_fanout % 2 ^ 16;
        child_path = slots ++ replicate (max_levels - root_level) 0;
        used_levels = root_level;
      })
      else err (oid_out_of_range oid_local root_level)

unfoldable pub oid_to_radix_path : ℕ → ℕ → Result RadixError RadixPath
unfolding oid_to_radix_path_with_leaf_fanout
oid_to_radix_path oid_local root_level =
    oid_to_radix_path_with_leaf_fanout oid_local root_level leaf_records

unfoldable pub oid_to_radix_path_location : ℕ → ℕ → Result RadixError RadixPath
unfolding oid_to_radix_path_with_leaf_fanout
oid_to_radix_path_location oid_local root_level =
    oid_to_radix_path_with_leaf_fanout oid_local root_level leaf_records_location

-- The loop `for level in (0..used).rev()` on the used slots; a `u64` wraps in a release build.
unfoldable pub horner : List ℕ → ℕ
horner [] = 0
horner (c ∷ cs) = (horner cs * inner_fanout % 2 ^ 64 + c) % 2 ^ 64

-- `None` is the panic of an index past the three slots.
unfoldable pub radix_path_to_oid_with_leaf_fanout : RadixPath → ℕ → ℕ → Option ℕ
unfolding horner
radix_path_to_oid_with_leaf_fanout path root_level leaf_fanout =
    if ltb max_levels root_level
    then none
    else some (
        (horner (take root_level path.child_path) * leaf_fanout % 2 ^ 64 + path.leaf_slot) % 2 ^ 64)

unfoldable pub radix_path_to_oid : RadixPath → ℕ → Option ℕ
unfolding radix_path_to_oid_with_leaf_fanout
radix_path_to_oid path root_level = radix_path_to_oid_with_leaf_fanout path root_level leaf_records

unfoldable pub radix_path_to_oid_location : RadixPath → ℕ → Option ℕ
unfolding radix_path_to_oid_with_leaf_fanout
radix_path_to_oid_location path root_level =
    radix_path_to_oid_with_leaf_fanout path root_level leaf_records_location
