-- ===== src/Advisories.antt =====
-- Advisory applicability, crates/rust-mcp/src/mcp/advisories.rs. `Osv`, `Rustsec` and `Ghsa` read
-- the three formats of a stored range, `Range` chooses among them, and `Merge` joins the rows of
-- each advisory into one answer for a version.
pub mod Applicability
pub mod Osv
pub mod Rustsec
pub mod Ghsa
pub mod Range
pub mod Merge
