-- ===== src/Jobs.antt =====
-- The refresh job queue: the table `refresh_jobs` (`Table`), its operations in
-- crates/rust-mcp/src/db/indexing.rs (`Queue`), the coordinator between those who wait for a job and
-- the worker, crates/rust-mcp/src/mcp/indexing/coordinator.rs (`Coordinator`), and the worker,
-- crates/rust-mcp/src/mcp/indexing/worker.rs (`Worker`, `Retry`).
pub mod Table
pub mod Queue
pub mod Retry
pub mod Coordinator
pub mod Worker
