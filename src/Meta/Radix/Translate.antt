-- ===== src/Meta/Radix/Translate.antt =====
-- The two translations of `crates/meta/src/radix.rs` are inverse to each other.
use native.Mathlib.Nat.{
  div-add-mod, div-eq_of_lt, mul-add-div_right, mul-add-mod_self_right, div-le_self, mul-le-mul,
  div-lt_iff_lt-mul, mod-lt, mod-eq_of_lt,
}
use mimisbrunnr.Base.{
  ℕ, zero, suc, ◌+◌, ◌-◌, ◌*◌, ◌/◌, ◌%◌, ◌^◌, ◌≤◌, ◌<◌, ◌≡◌, refl, sym, ap, ◌∙◌, ◌↔◌, ◌⊎◌, List, [],
  ◌∷◌, ◌++◌, length, take, take-append, replicate, some, ok, err, arith,
}
use mimisbrunnr.Meta.Radix.{
  RadixPath, oid_out_of_range, fill_slots, horner, oid_to_radix_path_with_leaf_fanout,
  radix_path_to_oid_with_leaf_fanout,
}

-- How many leaves a tree with this many inner levels has.
unfoldable pub leaves : ℕ → ℕ
leaves zero = 1
leaves (suc n) = leaves n * 16380

-- Nothing is left of an index exactly when it is below the number of leaves.
left_over : (n idx : ℕ) → ((fill_slots n idx).1 ≡ 0) ↔ (idx < leaves n)
unfolding fill_slots leaves
left_over zero idx = ground arith
left_over (suc n) idx = ground (arith, left_over n (idx / 16380))

length-fill_slots : (n idx : ℕ) → length (fill_slots n idx).0 ≡ n
unfolding fill_slots
length-fill_slots zero idx = refl
length-fill_slots (suc n) idx = ap suc (length-fill_slots n (idx / 16380))

horner-fill_slots :
    (n idx : ℕ) → idx < 2 ^ 64 → (fill_slots n idx).1 ≡ 0 → horner (fill_slots n idx).0 ≡ idx
unfolding fill_slots horner
horner-fill_slots zero idx h e = sym e
horner-fill_slots (suc n) idx h e =
    ground (arith, horner-fill_slots n (idx / 16380) (omega arith) e)

-- Every slot is the index of a child.
abbrev pub InFanout : List ℕ → Type 0
InFanout [] = Unit
InFanout (c ∷ cs) = (c < 16380) × InFanout cs

InFanout-fill_slots : (n idx : ℕ) → InFanout (fill_slots n idx).0
unfolding fill_slots
InFanout-fill_slots zero idx = tt
InFanout-fill_slots (suc n) idx = (omega arith, InFanout-fill_slots n (idx / 16380))

leaves_lt : (n : ℕ) → n ≤ 3 → leaves n < 2 ^ 43
unfolding leaves
leaves_lt zero h = omega arith
leaves_lt (suc zero) h = omega arith
leaves_lt (suc (suc zero)) h = omega arith
leaves_lt (suc (suc (suc zero))) h = omega arith
leaves_lt (suc (suc (suc (suc n)))) h = absurd (omega arith)

-- `n` slots below the fanout are read back from their number, which is that of a leaf.
fill_slots-horner :
    (n : ℕ) (cs : List ℕ)
    → length cs ≡ n
    → n ≤ 3
    → InFanout cs
    → (fill_slots n (horner cs) ≡ (cs, 0)) × (horner cs < leaves n)
unfolding fill_slots horner leaves
fill_slots-horner zero [] l h f = (refl, omega arith)
fill_slots-horner zero (c ∷ cs) l h f = absurd (omega arith)
fill_slots-horner (suc n) [] l h f = absurd (omega arith)
fill_slots-horner (suc n) (c ∷ cs) l h f =
    let (again, bound) = fill_slots-horner n cs (omega arith) (omega arith) f.1 in
    let whole : (horner cs * 16380 % 2 ^ 64 + c) % 2 ^ 64 ≡ horner cs * 16380 + c =
      omega (arith, bound, leaves_lt n (omega arith), f.0) in
    let digit : (horner cs * 16380 + c) % 16380 % 2 ^ 16 ≡ c = omega (arith, f.0) in
    let above : (horner cs * 16380 + c) / 16380 ≡ horner cs = omega (arith, f.0) in
    rw (whole, digit, above, again) (refl, omega (arith, bound, f.0))

-- Translating an id to a path fails exactly when the tree is more than three inner levels high or has no
-- leaf for the id.
oid_to_radix_path-err_iff :
    (oid_local root_level leaf_fanout : ℕ)
    → 0 < leaf_fanout
    → (oid_to_radix_path_with_leaf_fanout oid_local root_level leaf_fanout
        ≡ err (oid_out_of_range oid_local root_level))
      ↔ ((3 < root_level) ⊎ (leaves root_level * leaf_fanout ≤ oid_local))
unfolding oid_to_radix_path_with_leaf_fanout
oid_to_radix_path-err_iff oid_local root_level leaf_fanout h = ground (
  arith,
  left_over root_level (oid_local / leaf_fanout),
  div-lt_iff_lt-mul {k = leaf_fanout} {x = oid_local} {y = leaves root_level} h,
)

-- A path of a tree: a slot of a leaf, and one child for each inner level.
pub record IsPath (p : RadixPath) (root_level leaf_fanout : ℕ) : Type 0 where
  pub leaf_slot : p.leaf_slot < leaf_fanout
  pub used_levels : p.used_levels ≡ root_level
  pub slots : List ℕ
  pub child_path : p.child_path ≡ slots ++ replicate (3 - root_level) 0
  pub count : length slots ≡ root_level
  pub in_fanout : InFanout slots

-- An id that the tree has a leaf for is translated to a path of the tree, and that path back to the id.
pub radix_path_to_oid-oid_to_radix_path :
    (oid_local root_level leaf_fanout : ℕ)
    → 0 < leaf_fanout
    → leaf_fanout ≤ 2 ^ 16
    → root_level ≤ 3
    → oid_local < 2 ^ 64
    → oid_local < leaves root_level * leaf_fanout
    → (p : RadixPath) × (oid_to_radix_path_with_leaf_fanout oid_local root_level leaf_fanout ≡ ok p)
      × (radix_path_to_oid_with_leaf_fanout p root_level leaf_fanout ≡ some oid_local)
      × IsPath p root_level leaf_fanout
unfolding oid_to_radix_path_with_leaf_fanout radix_path_to_oid_with_leaf_fanout
radix_path_to_oid-oid_to_radix_path oid_local root_level leaf_fanout pos w levels u64 h =
    let idx : ℕ = oid_local / leaf_fanout in
    let inside =
      (div-lt_iff_lt-mul {k = leaf_fanout} {x = oid_local} {y = leaves root_level} pos).1 h in
    let done : (fill_slots root_level idx).1 ≡ 0 = (left_over root_level idx).1 inside in
    let slot : oid_local % leaf_fanout < leaf_fanout = mod-lt oid_local pos in
    let slot_u16 : oid_local % leaf_fanout % 2 ^ 16 ≡ oid_local % leaf_fanout =
      mod-eq_of_lt (omega (arith, slot, w)) in
    let small : idx < 2 ^ 64 = omega (arith, div-le_self oid_local leaf_fanout, u64) in
    let used : take root_level ((fill_slots root_level idx).0 ++ replicate (3 - root_level) 0)
        ≡ (fill_slots root_level idx).0 =
      take-append root_level _ _ (length-fill_slots root_level idx) in
    let value : horner
          (take root_level ((fill_slots root_level idx).0 ++ replicate (3 - root_level) 0))
        ≡ idx =
      ap horner used ∙ horner-fill_slots root_level idx small done in
    (
      record {
        leaf_slot = oid_local % leaf_fanout;
        child_path = (fill_slots root_level idx).0 ++ replicate (3 - root_level) 0;
        used_levels = root_level;
      },
      ground (arith, done, slot_u16),
      ground (arith, value, div-add-mod oid_local leaf_fanout),
      record {
        leaf_slot = slot;
        used_levels = refl;
        slots = (fill_slots root_level idx).0;
        child_path = refl;
        count = length-fill_slots root_level idx;
        in_fanout = InFanout-fill_slots root_level idx;
      },
    )

-- A path of a tree whose leaves are numbered below 2 ^ 64 is translated to an id, and that id back to
-- the path.
pub oid_to_radix_path-radix_path_to_oid :
    (p : RadixPath) (root_level leaf_fanout : ℕ)
    → leaf_fanout ≤ 2 ^ 16
    → root_level ≤ 3
    → IsPath p root_level leaf_fanout
    → (oid_local : ℕ) × (radix_path_to_oid_with_leaf_fanout p root_level leaf_fanout
        ≡ some oid_local)
      × (oid_to_radix_path_with_leaf_fanout oid_local root_level leaf_fanout ≡ ok p)
unfolding oid_to_radix_path_with_leaf_fanout radix_path_to_oid_with_leaf_fanout
oid_to_radix_path-radix_path_to_oid p root_level leaf_fanout w levels v =
    let (again, bound) = fill_slots-horner root_level v.slots v.count levels v.in_fanout in
    let used : horner (take root_level p.child_path) ≡ horner v.slots =
      ap (λ cs. horner (take root_level cs)) v.child_path
      ∙ ap horner (take-append root_level v.slots _ v.count) in
    let product : horner v.slots * leaf_fanout ≤ 2 ^ 43 * 2 ^ 16 =
      mul-le-mul {n₂ = 2 ^ 43} (omega (arith, bound, leaves_lt root_level levels)) w in
    let quotient : (horner v.slots * leaf_fanout + p.leaf_slot) / leaf_fanout ≡ horner v.slots =
      omega (
        arith,
        mul-add-div_right {m = leaf_fanout} (omega (arith, v.leaf_slot)) (horner v.slots)
            p.leaf_slot,
        div-eq_of_lt v.leaf_slot,
      ) in
    let rest : (horner v.slots * leaf_fanout + p.leaf_slot) % leaf_fanout ≡ p.leaf_slot =
      mul-add-mod_self_right (horner v.slots) leaf_fanout p.leaf_slot ∙ mod-eq_of_lt v.leaf_slot in
    (
      horner v.slots * leaf_fanout + p.leaf_slot,
      ground (arith, used, product, v.leaf_slot),
      ground (arith, again, quotient, rest, v.leaf_slot, v.used_levels, v.child_path),
    )
