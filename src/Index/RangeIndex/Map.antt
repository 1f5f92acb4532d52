-- ===== src/Index/RangeIndex/Map.antt =====
-- `RangeIndex` of `crates/index/src/range_index.rs` in memory: a map from a tag and the normalised key of a
-- value to the set of the objects. Its CBOR and B+ tree images are not modelled.
use Prim.Native.Nat.Ordering.{lt, gt}
use mimisbrunnr.Base.{
  ℕ, Ordering, Bool, true, false, not, ◌&&◌, [], ◌∷◌, Option, none, some, if◌then◌else◌,
}
use mimisbrunnr.Base.OrdMap
use mimisbrunnr.Base.OrdMap.{OrdMap, get}
use mimisbrunnr.Types.ObjectId.{TagId}
use mimisbrunnr.Types.Value.{Value}
use mimisbrunnr.Index.Bitmap.{Bitmap}
use mimisbrunnr.Index.NormalisedKey.{from_value}
use mimisbrunnr.Index.RangeIndex.KeyOrder.{Key, compare_key, key_ord}

abbrev pub is_lt : Ordering → Bool
is_lt lt = true
is_lt _ = false

abbrev pub is_gt : Ordering → Bool
is_gt gt = true
is_gt _ = false

abbrev pub key_of : TagId → Value → Key
key_of tag value = (tag, from_value value)

-- `low ≤ key < high`
unfoldable pub within : Key → Key → Key → Bool
within low high k = not (is_lt (compare_key k low)) && is_lt (compare_key k high)

module _ (b : Bitmap) where
  abbrev pub RangeIndex : Type 0
  RangeIndex = OrdMap Key b.Set

  -- `unwrap_or_default`
  abbrev pub or_empty : Option b.Set → b.Set
  or_empty none = b.empty
  or_empty (some s) = s

  unfoldable pub insert : RangeIndex → TagId → Value → ℕ → RangeIndex
  insert m tag value oid_local =
      let k = key_of tag value in OrdMap.insert k (b.insert oid_local (or_empty (get k m))) m

  -- The index and the set at a key from which an object has been removed: an empty set leaves the index.
  unfoldable pub with_set : RangeIndex → Key → b.Set → RangeIndex
  with_set m k s = if b.is_empty s then OrdMap.remove k m else OrdMap.insert k s m

  unfoldable pub remove : RangeIndex → TagId → Value → ℕ → RangeIndex × Bool
  unfolding with_set
  remove m tag value oid_local = elim (get (key_of tag value) m) [
    | none ↦ (m, false)
    | some s ↦ (with_set m (key_of tag value) (b.remove oid_local s), b.contains oid_local s)
  ]

  unfoldable pub lookup : RangeIndex → TagId → Value → b.Set
  lookup m tag value = or_empty (get (key_of tag value) m)

  -- `BTreeMap::range(low..high)`, which panics where `low` is past `high`.
  unfoldable pub range : Key → Key → RangeIndex → RangeIndex
  range low high [] = []
  range low high ((k, s) ∷ m) = elim (within low high k) [
    | true ↦ (k, s) ∷ range low high m
    | false ↦ range low high m
  ]

  -- The loop that joins the sets into `acc`.
  unfoldable pub join : b.Set → RangeIndex → b.Set
  join acc [] = acc
  join acc ((k, s) ∷ m) = join (b.union acc s) m

  -- `none` is the panic.
  unfoldable pub range_scan : RangeIndex → TagId → Value → Value → Option b.Set
  unfolding range join
  range_scan m tag low high =
      if is_gt (compare_key (key_of tag low) (key_of tag high))
      then none
      else some (join b.empty (range (key_of tag low) (key_of tag high) m))
