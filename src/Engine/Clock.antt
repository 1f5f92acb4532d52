-- ===== src/Engine/Clock.antt =====
-- `crates/engine/src/clock.rs`: the clock that stamps every local event. The wall clock is outside the
-- program, so a reading of it is an argument of each call.
pub mod Monotone
mod Tests
use mimisbrunnr.Base.{ℕ, ◌^◌, if◌then◌else◌, ltb, List, [], ◌∷◌}
use mimisbrunnr.Base.Int.{ℤ, pos}
use mimisbrunnr.Types.Timestamp.{HybridTimestamp, new_timestamp, tick, recv}

-- `SystemTime::now().duration_since(UNIX_EPOCH)`, in nanoseconds.
pub data Reading : Type 0 where
  before_epoch : Reading
  since_epoch : ℕ → Reading

pub record HybridClock : Type 0 where
  pub node_id : ℕ
  pub last : HybridTimestamp

unfoldable pub new_clock : ℕ → HybridClock
new_clock node_id = record { node_id = node_id; last = new_timestamp (pos 0) 0 node_id }

-- `now_ns`: a reading that does not fit an `i64` falls back to the last timestamp.
unfoldable pub now_ns : HybridClock → Reading → ℤ
now_ns c before_epoch = c.last.physical_ns
now_ns c (since_epoch n) = if ltb n (2 ^ 63) then pos n else c.last.physical_ns

unfoldable pub now : HybridClock → Reading → HybridClock × HybridTimestamp
unfolding now_ns
now c reading =
    let ticked = tick c.last (now_ns c reading) in
    let next : HybridTimestamp = record ticked { node_id = c.node_id } in
    (record c { last = next }, next)

unfoldable pub observe : HybridClock → Reading → HybridTimestamp → HybridClock
unfolding now_ns
observe c reading remote =
    let merged = recv c.last (now_ns c reading) remote in
    record c { last = record merged { node_id = c.node_id } }

-- The timestamps that a sequence of calls of `now` returns.
unfoldable pub stamps : HybridClock → List Reading → List HybridTimestamp
stamps c [] = []
stamps c (r ∷ rs) = let (c', t) = now c r in t ∷ stamps c' rs
