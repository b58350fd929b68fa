-- ===== src/Lib.antt =====
-- rust-mcp, a server that answers questions about Rust crates from a local index. This is the part of
-- it that decides: which job runs next and what becomes of it, whether an advisory concerns a
-- version, what changed between two versions, and which page a caller gets.
--
-- Parts, and the files of crates/ that they model:
--   Jobs          rust-mcp/src/db/indexing.rs (the queue's statements), mcp/indexing/worker.rs and
--                 mcp/indexing/coordinator.rs. `Jobs.Table` is the table `refresh_jobs` and the SQL
--                 that it is used with, `Jobs.Queue` has a function for each statement,
--                 `Jobs.Coordinator` the waiters, `Jobs.Worker` the turn of `run_refresh_worker`,
--                 `Jobs.Retry` its delays. A tool handler enqueues and waits, the worker claims,
--                 runs, settles and signals; `Jobs.Worker.Sound` puts these together as steps.
--   Advisories    rust-mcp/src/mcp/advisories.rs. `Osv`, `Rustsec` and `Ghsa` read a stored range,
--                 `Range` chooses among them, `Merge` joins the rows of an advisory.
--   ApiDiff       rust-mcp/src/mcp/tools/krate/api_diff.rs.
--   Dependencies  rust-mcp/src/mcp/tools/dependency/resolve.rs: `Inputs` and `Resolve`.
--   Adapter       rust-mcp-stdio/src/main.rs and rust-mcp-types/src/protocol.rs. `Protocol` has the
--                 stateless metadata and headers, `Events` the event streams, `Upstream` the
--                 connection with its session, `Relay` the main loop, which calls `forward`.
--   Graph, Features   rust-mcp/src/mcp/tools/krate/graph.rs and features.rs: the search for cycles and
--                 the closure of features; `Graph.Walks` is what both are measured by.
--   Security      rust-mcp/src/mcp/indexing/security.rs and integration/osv/mod.rs: `Records` makes a
--                 row of an OSV answer, `Osv` and `Rustsec` are the syncs with one transaction for each
--                 crate, `Transactions` what they share, and the root merges the sources.
--   Discovery     rust-mcp/src/mcp/indexing/discovery.rs: the name and version in a directory's
--                 name, and in `Scan` the walks that collect them.
--   Limits, Glob, Pagination, Fields   rust-mcp/src/mcp/utils.rs.
--   Text, Order, BTree, Prelude   strings, orders with the stable sort, ordered maps, and helpers.
--   Examples      runs on concrete inputs.
--
-- Conventions. A string is the list of its code points. A u32 or i64 is a natural number, with the
-- wrap-around written out where the code computes with it. A SQL statement is one step on the table.
-- A map is a list in the order of its keys, or a function where its order is never seen. The time of
-- a statement is its argument `now`. A cursor's walk has fuel, one call more than the rows that are
-- left is enough.
--
-- Parameters. The crates semver and rustsec (`Semver`, and `parses` in `Discovery`), base64 and serde (`Codec`, with what they
-- promise in `IsFaithful`), the queries of a resolution (`Index`), the handlers that fetch data for a job (`Handlers`), PostgreSQL's LOWER,
-- JSON values (`Json`, with what serde_json promises in `IsJson`), and the HTTP server behind the adapter,
-- a function of all the requests that it has received.
--
-- Not modelled: HTTP, the database's other queries, logging and metrics, and the parts of the program
-- that only pass data on. The time limit of a wait is not modelled.
mod Prelude
pub mod Text
pub mod Order
pub mod BTree
pub mod Semver
pub mod Advisories
pub mod Jobs
pub mod Limits
pub mod Glob
pub mod Pagination
pub mod ApiDiff
pub mod Fields
pub mod Dependencies
mod Examples
pub mod Json
pub mod Adapter
pub mod Graph
pub mod Features
pub mod Discovery
pub mod Security
