-- ===== src/Types/Timestamp.antt =====
-- `crates/types/src/timestamp.rs`: hybrid logical clock timestamps.
pub mod Order
mod Tests
use Prim.Native.Nat.Ordering.{lt, eq, gt}
use mimisbrunnr.Base.{
  ℕ, ◌+◌, ◌-◌, ◌^◌, min, max, compare, Ordering, Bool, true, false, ◌&&◌, if◌then◌else◌, ltb, ◌==◌,
}
use mimisbrunnr.Base.Int.{ℤ, pos, ltb_ℤ, compare_ℤ}
use mimisbrunnr.Base.OrdMap.{then_with}

pub record HybridTimestamp : Type 0 where
  pub physical_ns : ℤ
  pub logical : ℕ
  pub node_id : ℕ

-- `HybridTimestamp::new`
abbrev pub new_timestamp : ℤ → ℕ → ℕ → HybridTimestamp
new_timestamp physical_ns logical node_id = record {
  physical_ns = physical_ns;
  logical = logical;
  node_id = node_id;
}

abbrev pub u16_max : ℕ
u16_max = 2 ^ 16 - 1

-- `u16::saturating_add(1)`
abbrev pub next_logical : ℕ → ℕ
next_logical l = min (l + 1) u16_max

unfoldable pub tick : HybridTimestamp → ℤ → HybridTimestamp
tick t now_ns =
    if ltb_ℤ t.physical_ns now_ns
    then record t { physical_ns = now_ns; logical = 0 }
    else record t { logical = next_logical t.logical }

-- `self.physical_ns == other.physical_ns`
abbrev pub same_physical : HybridTimestamp → HybridTimestamp → Bool
same_physical a b = elim (compare_ℤ a.physical_ns b.physical_ns) [ eq ↦ true | _ ↦ false ]

unfoldable pub recv : HybridTimestamp → ℤ → HybridTimestamp → HybridTimestamp
recv t now_ns other =
    if ltb_ℤ t.physical_ns now_ns && ltb_ℤ other.physical_ns now_ns
    then record t { physical_ns = now_ns; logical = 0 }
    else if same_physical t other
    then record t { logical = next_logical (max t.logical other.logical) }
    else if ltb_ℤ t.physical_ns other.physical_ns
    then record t { physical_ns = other.physical_ns; logical = next_logical other.logical }
    else record t { logical = next_logical t.logical }

-- `Ord::cmp`: physical time, then the counter, then the node.
unfoldable pub cmp : HybridTimestamp → HybridTimestamp → Ordering
cmp a b =
    then_with (then_with (compare_ℤ a.physical_ns b.physical_ns) (compare a.logical b.logical))
      (compare a.node_id b.node_id)
