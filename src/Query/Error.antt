-- ===== src/Query/Error.antt =====
-- `crates/query/src/error.rs`, and how a run of the tokeniser or of the parser ends. The messages of parse
-- errors are left out.
use mimisbrunnr.Base.{ℕ, List}

pub data QueryError : Type 0 where
  unsupported_cmp_op : QueryError
  object_id_too_large : (local : ℕ) → QueryError
  parse_error : (position : ℕ) → QueryError
  unknown_tag : (name : List ℕ) → QueryError
  unknown_op : (op : List ℕ) → QueryError

-- `out_of_fuel` has no counterpart in the program.
pub data Outcome {ℓ} (A : Type ℓ) : Type ℓ where
  done : A → Outcome A
  failed : QueryError → Outcome A
  out_of_fuel : Outcome A

abbrev pub bind {ℓ κ} : {A : Type ℓ} {B : Type κ} → Outcome A → (A → Outcome B) → Outcome B
bind (done a) f = f a
bind (failed e) f = failed e
bind out_of_fuel f = out_of_fuel
