-- ===== src/Adapter.antt =====
-- The stdio adapter, crates/rust-mcp-stdio/src/main.rs and crates/rust-mcp-types/src/protocol.rs: a
-- proxy that reads JSON-RPC messages from its input, forwards them over HTTP and writes the replies.
pub mod Protocol
pub mod Events
pub mod Upstream
pub mod Relay
