-- ===== src/Types/Assertion.antt =====
-- `crates/types/src/assertion.rs`: what is stated of an object.
use mimisbrunnr.Types.ObjectId.{ObjectId, TagId}
use mimisbrunnr.Types.Value.{Value}

pub data Assertion : Type 0 where
  tagged : TagId → Assertion
  attr : (key : TagId) (value : Value) → Assertion
  relation : (predicate : TagId) (target : ObjectId) → Assertion
