-- ===== src/Ontology.antt =====
-- `crates/ontology`: the graph of implications between tags.
pub mod Graph
pub mod ListGraph
pub mod Dag
