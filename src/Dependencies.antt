-- ===== src/Dependencies.antt =====
-- `dependency_resolve`, crates/rust-mcp/src/mcp/tools/dependency/resolve.rs: `Inputs` joins the
-- requested dependencies, `Resolve` chooses versions and finds conflicts.
pub mod Inputs
pub mod Rows
pub mod Resolve
