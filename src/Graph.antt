-- ===== src/Graph.antt =====
-- The dependency graph of the tool `crate_graph`, crates/rust-mcp/src/mcp/tools/krate/graph.rs.
pub mod Walks
pub mod Cycles
