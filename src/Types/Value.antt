-- ===== src/Types/Value.antt =====
-- `enum Value` of `crates/types/src/value.rs`. A string is its UTF-8 bytes, and a float its 64 bits.
use mimisbrunnr.Base.{ℕ, List}
use mimisbrunnr.Base.Int.{ℤ}

pub data Value : Type 0 where
  text : List ℕ → Value
  int : ℤ → Value
  float : ℕ → Value
  timestamp : ℤ → Value
  blob : List ℕ → Value
  scoped : (context : ℕ) (inner : Value) → Value
