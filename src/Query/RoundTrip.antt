-- ===== src/Query/RoundTrip.antt =====
-- Printing a query and parsing it back, with `to_sexpr` and `QueryParser::parse` of
-- `crates/query/src/parser.rs`.
pub mod Atoms
pub mod Operators
pub mod Whole
