-- ===== src/Security/Osv/Committed.antt =====
-- A crate is reported as checked only once its rows are committed.
use rust_mcp.Prelude.{ℕ, ◌≡◌, List, ok, In}
use rust_mcp.Text.{Text}
use rust_mcp.Security.{SecurityCrateRow}
use rust_mcp.Security.Records.{OsvVulnerability}
use rust_mcp.Security.Severity.{Floats}
use rust_mcp.Security.Osv.{Write, Services, transaction, crate_writes}

module _ {F : Type 0} (floats : Floats F) (services : Services floats) where
  -- Behind an id: a crate of the run whose versions were read, whose query was answered, and whose
  -- rows, all that the answer gives, are committed in one transaction behind the deletion.
  pub record IsCommitted (all : List SecurityCrateRow) (log : List (List Write)) (id : ℕ)
      : Type 0 where
    pub krate : SecurityCrateRow
    pub rows : List (Text × ℕ)
    pub vulns : List OsvVulnerability
    pub asked : In krate all
    pub same_id : krate.id ≡ id
    pub versions : services.versions krate ≡ ok rows
    pub answer : services.query_crate krate.name ≡ ok vulns
    pub logged : In (transaction floats krate (crate_writes floats krate rows vulns)) log
