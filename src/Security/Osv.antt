-- ===== src/Security/Osv.antt =====
-- `sync_osv_security` of crates/rust-mcp/src/mcp/indexing/security.rs: the rows that a vulnerability
-- gives, and the loop over the crates with one transaction for each. What was committed is told as a
-- list of transactions. The queries, the database's refusals and the float type are parameters.
pub mod Committed
use rust_mcp.Prelude.{
  ℕ, ◌+◌, Bool, true, false, not, ◌&&◌, ◌||◌, List, [], ◌∷◌, ◌++◌, map, Option, none, some, Result,
  ok, err, if◌then◌else◌, any, select, is_empty, unwrap_or, length,
}
use rust_mcp.Prelude.Options.{mapped, or_else, is_some}
use rust_mcp.Text.{Text, codes, text_eq}
use rust_mcp.Security.{SecurityCrateRow, SecuritySyncOutcome}
use rust_mcp.Security.Transactions.{Synced, unless_failed}
use rust_mcp.Security.Records.{
  OsvPackage, OsvAffected, OsvVulnerability, OsvDatabaseSpecific, flattened, affected_range_text,
  fixed_versions, advisory_identity, collect_affected_functions,
}
use rust_mcp.Security.Severity.{Floats, normalize_severity_label}

-- What the rows of an advisory share.
pub record AdvisoryFields : Type 0 where
  pub crate_id : ℕ
  pub advisory_id : Text
  pub severity : Option Text
  pub title : Text
  pub url : Option Text
  pub affected_range : Text
  pub fixed : List Text
  pub source : Text
  pub details : Option Text
  pub affected_functions : List Text
  pub cwe_ids : List Text

-- The statements of a transaction: the rows of the crate that came from OSV are deleted, a row is
-- written for a version, or one for the whole crate.
pub data Write : Type 0 where
  clear_osv_advisory_matches : ℕ → Write
  upsert_version_advisory_match : ℕ → AdvisoryFields → Write
  insert_crate_level_advisory_match : AdvisoryFields → Write

-- The indexed versions of a crate, with their ids; of equal versions the last counts.
unfoldable pub version_id : List (Text × ℕ) → Text → Option ℕ
unfolding text_eq
version_id [] version = none
version_id ((text, id) ∷ rows) version =
    or_else (version_id rows version) (if text_eq text version then some id else none)

abbrev concerns : SecurityCrateRow → Option OsvPackage → Bool
unfolding text_eq
concerns krate none = false
concerns krate (some package') =
    text_eq package'.ecosystem (codes "crates.io")
    && (text_eq package'.name krate.name || text_eq package'.name (codes "*"))

abbrev first : List Text → Option Text
first [] = none
first (text ∷ rest) = some text

abbrev withdrawn_range : Option Text → List OsvAffected → Text
unfolding affected_range_text
withdrawn_range none affected = affected_range_text affected
withdrawn_range (some date) affected = codes "withdrawn=" ++ date

abbrev cwe_ids_of : Option OsvDatabaseSpecific → List Text
cwe_ids_of none = []
cwe_ids_of (some db) = db.cwe_ids

module _ {F : Type 0} (floats : Floats F) where
  advisory_fields : SecurityCrateRow → OsvVulnerability → List OsvAffected → AdvisoryFields
  unfolding advisory_identity normalize_severity_label affected_range_text fixed_versions
      collect_affected_functions
  advisory_fields krate vuln affected =
      let (advisory_id, advisory_source) = advisory_identity vuln in
      record {
        crate_id = krate.id;
        advisory_id = advisory_id;
        severity = normalize_severity_label floats vuln.severity vuln.database_specific;
        title = unwrap_or vuln.id (or_else vuln.summary (first vuln.aliases));
        url = first vuln.references;
        affected_range = withdrawn_range vuln.withdrawn affected;
        fixed = fixed_versions affected;
        source = advisory_source;
        details = vuln.details;
        affected_functions = collect_affected_functions affected;
        cwe_ids = cwe_ids_of vuln.database_specific;
      }

  abbrev version_write : AdvisoryFields → Option ℕ → List Write
  version_write fields none = []
  version_write fields (some id) = upsert_version_advisory_match id fields ∷ []

  -- A row for each indexed version that an entry names.
  unfoldable pub version_writes : List (Text × ℕ) → AdvisoryFields → List OsvAffected → List Write
  unfolding version_id
  version_writes rows fields affected =
      flattened
        (λ (item : OsvAffected).
          flattened (λ (version : Text). version_write fields (version_id rows version))
            item.versions)
        affected

  -- Where no version matched, one row for the crate.
  abbrev or_crate_level : AdvisoryFields → List Write → List Write
  or_crate_level fields [] = insert_crate_level_advisory_match fields ∷ []
  or_crate_level fields (write ∷ writes) = write ∷ writes

  unfoldable pub vulnerability_writes :
      SecurityCrateRow → List (Text × ℕ) → OsvVulnerability → List Write
  unfolding advisory_fields version_writes text_eq
  vulnerability_writes krate rows vuln =
      let retained = select (λ item. concerns krate item.of_package) vuln.affected in
      let affected = if is_some vuln.withdrawn then [] else retained in
      let fields = advisory_fields krate vuln affected in
      if not (is_some vuln.withdrawn) && is_empty retained
      then []
      else or_crate_level fields (version_writes rows fields affected)

  -- The rows that a crate's vulnerabilities give.
  unfoldable pub crate_writes :
      SecurityCrateRow → List (Text × ℕ) → List OsvVulnerability → List Write
  unfolding vulnerability_writes
  crate_writes krate rows vulns = flattened (vulnerability_writes krate rows) vulns

  -- The versions and vulnerabilities of a crate; the error of a transaction that the database refuses
  -- at any of its statements, so that nothing of it stays; and that of the invalidation behind it.
  pub record Services : Type 0 where
    pub versions : SecurityCrateRow → Result Text (List (Text × ℕ))
    pub query_crate : Text → Result Text (List OsvVulnerability)
    pub refused : SecurityCrateRow → Option Text
    pub invalidation : Text → Option Text

  abbrev pub transaction : SecurityCrateRow → List Write → List Write
  transaction krate writes = clear_osv_advisory_matches krate.id ∷ writes

  -- The outcome once a crate's transaction is written.
  abbrev pub written_outcome :
      SecurityCrateRow → List Write → SecuritySyncOutcome → SecuritySyncOutcome
  written_outcome krate writes outcome = record outcome {
    crates_processed = outcome.crates_processed + 1;
    advisories_written = outcome.advisories_written + length writes;
    touched_crates = outcome.touched_crates ++ (krate.name ∷ []);
    checked_crate_ids = outcome.checked_crate_ids ++ (krate.id ∷ []);
  }

  -- One crate, told its vulnerabilities or the error of the query; `next` goes on with the others.
  unfoldable pub sync_vulnerabilities :
      Services
      → SecurityCrateRow
      → List (Text × ℕ)
      → Result Text (List OsvVulnerability)
      → List (List Write)
      → SecuritySyncOutcome
      → (List (List Write) → SecuritySyncOutcome → Synced Write)
      → Synced Write
  unfolding crate_writes
  sync_vulnerabilities services krate rows (err error) log outcome next =
      next log (record outcome { errors = outcome.errors ++ (error ∷ []) })
  sync_vulnerabilities services krate rows (ok vulns) log outcome next =
      let writes = crate_writes krate rows vulns in
      unless_failed (services.refused krate) log λ log.
        unless_failed (services.invalidation krate.name) (transaction krate writes ∷ log)
          (λ log. next log (written_outcome krate writes outcome))

  unfoldable pub sync_crate :
      Services
      → SecurityCrateRow
      → Result Text (List (Text × ℕ))
      → List (List Write)
      → SecuritySyncOutcome
      → (List (List Write) → SecuritySyncOutcome → Synced Write)
      → Synced Write
  unfolding sync_vulnerabilities
  sync_crate services krate (err error) log outcome next =
      (log, err (codes "failed to load versions for " ++ (krate.name ++ (codes ": " ++ error))))
  sync_crate services krate (ok rows) log outcome next =
      sync_vulnerabilities services krate rows (services.query_crate krate.name) log outcome next

  unfoldable pub sync_osv_security :
      Services → List SecurityCrateRow → List (List Write) → SecuritySyncOutcome → Synced Write
  sync_osv_security services [] log outcome = (log, ok outcome)
  sync_osv_security services (krate ∷ crates) log outcome =
      sync_crate services krate (services.versions krate) log outcome
        (λ log outcome. sync_osv_security services crates log outcome)
