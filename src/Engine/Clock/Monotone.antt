-- ===== src/Engine/Clock/Monotone.antt =====
-- The clock of `crates/engine/src/clock.rs` never repeats a timestamp while its counter has room.
use Prim.Native.Nat.Ordering.{lt}
use mimisbrunnr.Base.{subst, ◌+◌, ◌≡◌, ◌<◌, ◌≤◌, arith, List, [], ◌∷◌, length}
use mimisbrunnr.Types.Timestamp.{HybridTimestamp, tick, recv, cmp, u16_max}
use mimisbrunnr.Engine.Clock.{HybridClock, Reading, now, observe, stamps}

-- Each timestamp of the list lies after the one before, the first after `t`.
abbrev pub Ascending : HybridTimestamp → List HybridTimestamp → Type 0
Ascending t [] = Unit
Ascending t (s ∷ ss) = (cmp t s ≡ lt) × Ascending s ss

-- Every timestamp comes from the clock's own node.
abbrev pub Owned : HybridClock → Type 0
Owned c = c.last.node_id ≡ c.node_id

now_step :
    (c : HybridClock) (r : Reading)
    → Owned c
    → c.last.logical < u16_max
    → (cmp c.last (now c r).1 ≡ lt)
      × ((now c r).0.last ≡ (now c r).1)
      × Owned (now c r).0
      × ((now c r).1.logical ≤ c.last.logical + 1)
unfolding now tick cmp
now_step c r own room = (ground arith, ground arith, ground arith, ground arith)

-- If the clock's last timestamp is its own and the counter plus the number of readings stays within
-- 65535, the timestamps that the calls of `now` return strictly ascend, whatever the wall clock shows.
pub stamps-Ascending :
    (c : HybridClock) (rs : List Reading)
    → Owned c
    → c.last.logical + length rs ≤ u16_max
    → Ascending c.last (stamps c rs)
unfolding stamps
stamps-Ascending c [] own room = tt
stamps-Ascending c (r ∷ rs) own room =
    let (later, same, own', grown) = now_step c r own (omega arith) in
    let rest : Ascending (now c r).0.last (stamps (now c r).0 rs) =
      stamps-Ascending (now c r).0 rs own' (ground (arith, same)) in
    (later, subst (λ s. Ascending s (stamps (now c r).0 rs)) same rest)

-- After `observe` the clock stands after both its last timestamp and the received one, if neither
-- counter is at the largest `u16`.
observe-lt :
    (c : HybridClock) (r : Reading) (remote : HybridTimestamp)
    → c.last.logical < u16_max
    → remote.logical < u16_max
    → (cmp c.last (observe c r remote).last ≡ lt)
      × (cmp remote (observe c r remote).last ≡ lt)
      × ((observe c r remote).last.node_id ≡ c.node_id)
unfolding observe recv cmp
observe-lt c r remote h k = (ground arith, ground arith, ground arith)
