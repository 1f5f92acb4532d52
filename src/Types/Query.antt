-- ===== src/Types/Query.antt =====
-- `crates/types/src/query.rs`: the query algebra. `Vec<Query>` is the type `Queries`.
use mimisbrunnr.Types.ObjectId.{ObjectId, TagId}
use mimisbrunnr.Types.Value.{Value}

-- `Eq` to `Ge`, with a suffix that keeps them clear of the constructors of `Ordering`.
pub data CmpOp : Type 0 where
  eq_op ne_op lt_op le_op gt_op ge_op prefix contains : CmpOp

mutual
  pub data Query : Type 0 where
    has_tag : TagId → Query
    has_attr : (key : TagId) (op : CmpOp) (value : Value) → Query
    related : (predicate : TagId) (target : ObjectId) → Query
    and_all : Queries → Query
    or_any : Queries → Query
    not_in : Query → Query
    is_a : TagId → Query

  pub data Queries : Type 0 where
    no_queries : Queries
    query : Query → Queries → Queries
