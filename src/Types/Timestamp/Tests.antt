-- ===== src/Types/Timestamp/Tests.antt =====
-- Timestamps of `crates/types/src/timestamp.rs` at concrete values.
use Prim.Native.Nat.Ordering.{lt}
use mimisbrunnr.Base.{◌≡◌, arith}
use mimisbrunnr.Base.Int.{pos}
use mimisbrunnr.Types.Timestamp.{HybridTimestamp, new_timestamp, tick, cmp}
use mimisbrunnr.Types.Timestamp.Order.{tick-lt}

abbrev early : HybridTimestamp
early = new_timestamp (pos 1000) 3 1

abbrev full : HybridTimestamp
full = new_timestamp (pos 1000) 65535 1

tick-lt_example : cmp early (tick early (pos 900)) ≡ lt
tick-lt_example = tick-lt early (pos 900) (omega arith)
