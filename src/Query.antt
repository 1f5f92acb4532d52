-- ===== src/Query.antt =====
-- The crate `crates/query`: the s-expression language of queries, and the executor.
pub mod Text
pub mod Error
pub mod Token
pub mod Print
pub mod Parse
pub mod RoundTrip
pub mod Executor
pub mod Facets
mod Tests
