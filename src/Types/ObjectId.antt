-- ===== src/Types/ObjectId.antt =====
-- `crates/types/src/object_id.rs`: an object id is a 64-bit word, the node in the high 16 bits and the
-- local sequence in the low 48. Tag ids (`crates/types/src/ids.rs`) are plain u32 numbers.
use mimisbrunnr.Base.{ℕ, ◌+◌, ◌*◌, ◌/◌, ◌%◌, ◌^◌, ◌<◌, ◌≡◌, arith}

abbrev pub ObjectId : Type 0
ObjectId = ℕ

abbrev pub TagId : Type 0
TagId = ℕ

unfoldable pub from_parts : ℕ → ℕ → ObjectId
from_parts node local = node * 2 ^ 48 + local % 2 ^ 48

unfoldable pub node_id : ObjectId → ℕ
node_id id = id / 2 ^ 48

unfoldable pub local_seq : ObjectId → ℕ
local_seq id = id % 2 ^ 48

pub from_parts_lem : (id : ObjectId) → from_parts (node_id id) (local_seq id) ≡ id
unfolding from_parts node_id local_seq
from_parts_lem id = omega arith

pub node_id-lt : (id : ObjectId) → id < 2 ^ 64 → node_id id < 2 ^ 16
unfolding node_id
node_id-lt id h = omega arith

pub local_seq-lt : (id : ObjectId) → local_seq id < 2 ^ 48
unfolding local_seq
local_seq-lt id = omega arith
