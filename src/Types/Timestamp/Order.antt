-- ===== src/Types/Timestamp/Order.antt =====
-- How `tick` and `recv` of `crates/types/src/timestamp.rs` move a timestamp in the total order.
use Prim.Native.Nat.Ordering.{lt}
use mimisbrunnr.Base.{◌≡◌, ◌<◌, arith}
use mimisbrunnr.Base.Int.{ℤ, ◌≤ℤ◌}
use mimisbrunnr.Types.Timestamp.{HybridTimestamp, tick, recv, cmp, u16_max}

-- A tick moves the timestamp strictly forward while its counter is below the largest `u16`.
pub tick-lt : (t : HybridTimestamp) (now_ns : ℤ) → t.logical < u16_max → cmp t (tick t now_ns) ≡ lt
unfolding tick cmp
tick-lt t now_ns h = ground arith

-- A full counter stays where it is as long as the wall clock does not pass it: such a tick returns
-- the same timestamp again.
tick_stuck :
    (t : HybridTimestamp) (now_ns : ℤ)
    → t.logical ≡ u16_max
    → now_ns ≤ℤ t.physical_ns
    → tick t now_ns ≡ t
unfolding tick
tick_stuck t now_ns h late = ground arith

-- After `recv` the timestamp lies after both the local and the received one, if neither counter is
-- at the largest `u16`.
pub recv-lt :
    (t other : HybridTimestamp) (now_ns : ℤ)
    → t.logical < u16_max
    → other.logical < u16_max
    → (cmp t (recv t now_ns other) ≡ lt) × (cmp other (recv t now_ns other) ≡ lt)
unfolding recv cmp
recv-lt t other now_ns h k = (ground arith, ground arith)
