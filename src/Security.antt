-- ===== src/Security.antt =====
-- The sync of security advisories, crates/rust-mcp/src/mcp/indexing/security.rs: the outcome of a
-- source, how outcomes are merged, and which crates count as checked. Integers are unbounded here.
pub mod Records
pub mod Severity
pub mod Transactions
pub mod Osv
pub mod Rustsec
pub mod Checked
use rust_mcp.Prelude.{
  ℕ, ◌+◌, Bool, true, false, List, [], ◌∷◌, ◌++◌, map, Option, none, some, Result, ok, err,
  if◌then◌else◌, any, select, length, ◌==◌,
}
use rust_mcp.Order.{text_ord, nat_ord}
use rust_mcp.Order.Sort.{sort_by, dedup}
use rust_mcp.Text.{Text}

pub record SecurityCrateRow : Type 0 where
  pub id : ℕ
  pub name : Text

pub record SecuritySyncOutcome : Type 0 where
  pub crates_processed : ℕ
  pub advisories_written : ℕ
  pub errors : List Text
  pub touched_crates : List Text
  pub checked_crate_ids : List ℕ

abbrev pub default_outcome : SecuritySyncOutcome
default_outcome = record {
  crates_processed = 0;
  advisories_written = 0;
  errors = [];
  touched_crates = [];
  checked_crate_ids = [];
}

unfoldable pub merge : SecuritySyncOutcome → SecuritySyncOutcome → SecuritySyncOutcome
merge outcome other = record {
  crates_processed = outcome.crates_processed + other.crates_processed;
  advisories_written = outcome.advisories_written + other.advisories_written;
  errors = outcome.errors ++ other.errors;
  touched_crates =
      dedup text_ord
        (sort_by text_ord (λ name. name) (outcome.touched_crates ++ other.touched_crates));
  checked_crate_ids =
      dedup nat_ord
        (sort_by nat_ord (λ id. id) (outcome.checked_crate_ids ++ other.checked_crate_ids));
}

abbrev pub contains_id : List ℕ → ℕ → Bool
contains_id ids id = any (λ other. id == other) ids

-- One source: what it checked stays checked; after an error nothing does.
unfoldable pub add_source :
    Result Text SecuritySyncOutcome → List ℕ × SecuritySyncOutcome → List ℕ × SecuritySyncOutcome
unfolding merge
add_source (ok source) (checked, outcome) =
    (select (contains_id source.checked_crate_ids) checked, merge outcome source)
add_source (err error) (checked, outcome) =
    ([], record outcome { errors = outcome.errors ++ (error ∷ []) })

unfoldable pub add_sources :
    List (Result Text SecuritySyncOutcome)
    → List ℕ × SecuritySyncOutcome
    → List ℕ × SecuritySyncOutcome
unfolding add_source
add_sources [] state = state
add_sources (result ∷ results) state = add_sources results (add_source result state)

-- The sources that are asked: OSV, GHSA, and RustSec where its database is configured.
abbrev pub sources :
    Result Text SecuritySyncOutcome
    → Result Text SecuritySyncOutcome
    → Option (Result Text SecuritySyncOutcome)
    → List (Result Text SecuritySyncOutcome)
sources osv ghsa none = osv ∷ ghsa ∷ []
sources osv ghsa (some rustsec) = osv ∷ ghsa ∷ rustsec ∷ []

-- `sync_security_crates`, told what the sources answered. The set of checked ids is a list.
unfoldable pub sync_security_crates :
    List SecurityCrateRow
    → Result Text SecuritySyncOutcome
    → Result Text SecuritySyncOutcome
    → Option (Result Text SecuritySyncOutcome)
    → SecuritySyncOutcome
unfolding add_sources
sync_security_crates crates osv ghsa rustsec =
    let (checked, outcome) =
      add_sources (sources osv ghsa rustsec) (map (λ krate. krate.id) crates, default_outcome) in
    record outcome {
      checked_crate_ids = dedup nat_ord (sort_by nat_ord (λ id. id) checked);
      crates_processed = length crates;
    }
