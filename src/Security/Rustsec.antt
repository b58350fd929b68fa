-- ===== src/Security/Rustsec.antt =====
-- `sync_rustsec_db_security` of crates/rust-mcp/src/mcp/indexing/security.rs: advisory files of the
-- RustSec database are read, parsed and matched with the indexed versions, with one transaction for
-- each crate. The files, the TOML parser, the queries and the database's refusals are parameters.
pub mod Whole
use rust_mcp.Prelude.{
  ℕ, suc, ◌+◌, Bool, true, false, not, ◌&&◌, ◌||◌, List, [], ◌∷◌, ◌++◌, map, Option, none, some,
  Result, ok, err, if◌then◌else◌, select, is_empty, unwrap_or, length, drop,
}
use rust_mcp.Prelude.Options.{◌>>=◌, mapped, or_else}
use rust_mcp.Order.{text_ord}
use rust_mcp.Order.Sort.{sort_by, dedup}
use rust_mcp.Text.{Text, codes, text_eq, trim}
use rust_mcp.Text.Pieces.{starts_with, join}
use rust_mcp.Text.Lines.{lines}
use rust_mcp.Semver.{Semver}
use rust_mcp.Advisories.Applicability.{is_affected}
use rust_mcp.Advisories.Range.{range_applicability}
use rust_mcp.Security.{SecurityCrateRow, SecuritySyncOutcome, default_outcome}
use rust_mcp.Security.Transactions.{Synced, unless_failed}
use rust_mcp.Security.Records.{rustsec_title_from_body, flattened}
use rust_mcp.Security.Severity.{Floats, extract_first_float, score_label}
use rust_mcp.Security.Osv.{AdvisoryFields}

-- The text before and behind the first occurrence of a marker; `seen` is the text so far.
cut_from : Text → Text → Text → Option (Text × Text)
unfolding starts_with
cut_from marker seen [] = if is_empty marker then some (seen, []) else none
cut_from marker seen (c ∷ text) =
    let later = cut_from marker (seen ++ (c ∷ [])) text in
    if starts_with marker (c ∷ text) then some (seen, drop (length marker) (c ∷ text)) else later

abbrev cut : Text → Text → Option (Text × Text)
cut marker text = cut_from marker [] text

abbrev first_line : List Text → Option Text
first_line [] = none
first_line (line ∷ rest) = some line

behind : Text → Text → Option (Text × Text)
unfolding cut_from text_eq
behind first tail =
    if text_eq first (codes "+++") || text_eq first (codes "---")
    then cut (10 ∷ (first ++ (10 ∷ []))) tail
    else none

-- The front matter and the body, behind a first line that is one of the two markers.
unfoldable pub split_toml_frontmatter : Text → Option (Text × Text)
unfolding cut_from behind lines trim
split_toml_frontmatter markdown = do
  line ← first_line (lines markdown)
  let first = trim line
  rest ← cut (10 ∷ []) markdown
  behind first rest.1

-- `RustSecFrontmatter`, with the names of the affected functions.
pub record RustSecFrontmatter : Type 0 where
  pub id : Option Text
  pub of_package : Option Text
  pub title : Option Text
  pub description : Option Text
  pub url : Option Text
  pub cvss : Option Text
  pub withdrawn : Option Text
  pub aliases : List Text
  pub categories : List Text
  pub patched : List Text
  pub unaffected : List Text
  pub functions : List Text

abbrev listed : Text → Text → List Text → List Text
listed key separator [] = []
listed key separator (value ∷ values) = (key ++ join separator (value ∷ values)) ∷ []

abbrev withdrawn_part : Option Text → List Text
withdrawn_part none = []
withdrawn_part (some value) = (codes "withdrawn=" ++ value) ∷ []

unfoldable pub rustsec_range : RustSecFrontmatter → Text
unfolding join
rustsec_range parsed = join (codes "; ") (
    listed (codes "patched=") (codes " | ") parsed.patched
    ++ (listed (codes "unaffected=") (codes " | ") parsed.unaffected
        ++ (withdrawn_part parsed.withdrawn
            ++ listed (codes "categories=") (codes "|") parsed.categories)))

first_link : List Text → Option Text
unfolding starts_with
first_link [] = none
first_link (alias ∷ aliases) =
    if starts_with (codes "https://") alias then some alias else first_link aliases

abbrev details_of : RustSecFrontmatter → Text → Option Text
details_of parsed [] = parsed.description
details_of parsed (c ∷ body) = some (c ∷ body)

pub data RustsecWrite : Type 0 where
  clear_rustsec_db_advisory_matches : ℕ → RustsecWrite
  rustsec_version_match : ℕ → AdvisoryFields → RustsecWrite
  rustsec_crate_match : AdvisoryFields → RustsecWrite

-- An advisory file: its path as it is shown, its stem, and its text or the error of reading it.
pub record AdvisoryFile : Type 0 where
  pub path : Text
  pub stem : Option Text
  pub text : Result Text Text

module _ (σ : Semver) {F : Type 0} (floats : Floats F) where
  pub record RustsecServices : Type 0 where
    pub configured : Bool
    pub has_crates : Bool
    pub advisory_files : SecurityCrateRow → List AdvisoryFile
    pub parse_toml : Text → Result Text RustSecFrontmatter
    pub versions : SecurityCrateRow → Result Text (List (Text × ℕ))
    pub refused : SecurityCrateRow → Option Text
    pub invalidation : Text → Option Text

  rustsec_fields : SecurityCrateRow → Text → RustSecFrontmatter → Text → AdvisoryFields
  unfolding rustsec_range first_link extract_first_float score_label rustsec_title_from_body trim
  rustsec_fields krate advisory_id parsed body = record {
    crate_id = krate.id;
    advisory_id = advisory_id;
    severity = mapped (score_label floats) (parsed.cvss >>= extract_first_float floats);
    title =
        unwrap_or advisory_id
          (or_else (or_else parsed.title (rustsec_title_from_body body)) parsed.description);
    url = or_else parsed.url (first_link parsed.aliases);
    affected_range = rustsec_range parsed;
    fixed = parsed.patched;
    source = codes "rustsec_db";
    details = details_of parsed (trim body);
    affected_functions = sort_by text_ord (λ name. name) parsed.functions;
    cwe_ids = [];
  }

  matching_writes : AdvisoryFields → List (Text × ℕ) → List RustsecWrite
  unfolding range_applicability
  matching_writes fields rows =
      map (λ row. rustsec_version_match row.1 fields)
        (select
          (λ row.
            is_affected (range_applicability σ (codes "rustsec_db") fields.affected_range row.0))
          rows)

  abbrev pub or_crate_match : AdvisoryFields → List RustsecWrite → List RustsecWrite
  or_crate_match fields [] = rustsec_crate_match fields ∷ []
  or_crate_match fields (write ∷ writes) = write ∷ writes

  -- An advisory of another package gives no row.
  abbrev pub other_package : SecurityCrateRow → Option Text → Bool
  unfolding text_eq
  other_package krate none = false
  other_package krate (some name) = not (text_eq name krate.name)

  -- The rows of one file that could be parsed.
  unfoldable pub parsed_writes :
      SecurityCrateRow
      → List (Text × ℕ)
      → AdvisoryFile
      → Text
      → RustSecFrontmatter
      → List RustsecWrite
  unfolding rustsec_fields matching_writes
  parsed_writes krate rows file body parsed =
      let advisory_id = unwrap_or (codes "RUSTSEC-UNKNOWN") (or_else parsed.id file.stem) in
      let fields = rustsec_fields krate advisory_id parsed body in
      if other_package krate parsed.of_package
      then []
      else or_crate_match fields (matching_writes fields rows)

  abbrev pub after_parse :
      SecurityCrateRow
      → List (Text × ℕ)
      → AdvisoryFile
      → Text
      → Result Text RustSecFrontmatter
      → Result Text (List RustsecWrite)
  after_parse krate rows file body (err error) =
      err (codes "failed parsing TOML frontmatter in " ++ (file.path ++ (codes ": " ++ error)))
  after_parse krate rows file body (ok parsed) = ok (parsed_writes krate rows file body parsed)

  abbrev pub after_split :
      RustsecServices
      → SecurityCrateRow
      → List (Text × ℕ)
      → AdvisoryFile
      → Option (Text × Text)
      → Result Text (List RustsecWrite)
  after_split services krate rows file none =
      err (codes "missing TOML frontmatter in " ++ file.path)
  after_split services krate rows file (some (frontmatter, body)) =
      after_parse krate rows file body (services.parse_toml frontmatter)

  -- One file: its rows, or the error that is noted for it.
  unfoldable pub file_writes :
      RustsecServices
      → SecurityCrateRow
      → List (Text × ℕ)
      → AdvisoryFile
      → Result Text Text
      → Result Text (List RustsecWrite)
  unfolding split_toml_frontmatter
  file_writes services krate rows file (err error) =
      err (codes "failed reading advisory file " ++ (file.path ++ (codes ": " ++ error)))
  file_writes services krate rows file (ok raw) =
      after_split services krate rows file (split_toml_frontmatter raw)

  -- The errors and the rows of the files, in their order.
  abbrev pub with_file :
      Result Text (List RustsecWrite)
      → List Text × List RustsecWrite
      → List Text × List RustsecWrite
  with_file (err error) (errors, writes) = (error ∷ errors, writes)
  with_file (ok now) (errors, writes) = (errors, now ++ writes)

  unfoldable pub files_writes :
      RustsecServices
      → SecurityCrateRow
      → List (Text × ℕ)
      → List AdvisoryFile
      → List Text × List RustsecWrite
  unfolding file_writes
  files_writes services krate rows [] = ([], [])
  files_writes services krate rows (file ∷ files) =
      with_file (file_writes services krate rows file file.text)
        (files_writes services krate rows files)

  abbrev pub scanned : SecurityCrateRow → SecuritySyncOutcome → SecuritySyncOutcome
  scanned krate outcome = record outcome {
    crates_processed = outcome.crates_processed + 1;
    touched_crates = outcome.touched_crates ++ (krate.name ∷ []);
  }

  abbrev pub stored :
      SecurityCrateRow → List RustsecWrite → SecuritySyncOutcome → SecuritySyncOutcome
  stored krate writes outcome = record (scanned krate outcome) {
    advisories_written = outcome.advisories_written + length writes;
    checked_crate_ids = outcome.checked_crate_ids ++ (krate.id ∷ []);
  }

  -- A crate whose files gave an error keeps its old rows: the transaction is dropped.
  unfoldable pub store_files :
      RustsecServices
      → SecurityCrateRow
      → List Text × List RustsecWrite
      → List (List RustsecWrite)
      → SecuritySyncOutcome
      → (List (List RustsecWrite) → SecuritySyncOutcome → Synced RustsecWrite)
      → Synced RustsecWrite
  store_files services krate (error ∷ errors, writes) log outcome next =
      next log (record (scanned krate outcome) { errors = outcome.errors ++ error ∷ errors })
  store_files services krate ([], writes) log outcome next =
      unless_failed (services.invalidation krate.name)
        ((clear_rustsec_db_advisory_matches krate.id ∷ writes) ∷ log)
        (λ log. next log (stored krate writes outcome))

  unfoldable pub scan_crate :
      RustsecServices
      → SecurityCrateRow
      → Result Text (List (Text × ℕ))
      → List (List RustsecWrite)
      → SecuritySyncOutcome
      → (List (List RustsecWrite) → SecuritySyncOutcome → Synced RustsecWrite)
      → Synced RustsecWrite
  unfolding files_writes store_files
  scan_crate services krate (err error) log outcome next =
      (log, err (codes "failed to load versions for " ++ (krate.name ++ (codes ": " ++ error))))
  scan_crate services krate (ok rows) log outcome next =
      unless_failed (services.refused krate) log λ log.
        store_files services krate
          (files_writes services krate rows (services.advisory_files krate)) log outcome next

  unfoldable pub scan_crates :
      RustsecServices
      → List SecurityCrateRow
      → List (List RustsecWrite)
      → SecuritySyncOutcome
      → Synced RustsecWrite
  scan_crates services [] log outcome = (
    log,
    ok (record outcome {
      touched_crates = dedup text_ord (sort_by text_ord (λ name. name) outcome.touched_crates);
    }),
  )
  scan_crates services (krate ∷ crates) log outcome =
      scan_crate services krate (services.versions krate) log outcome
        (λ log outcome. scan_crates services crates log outcome)

  unfoldable pub sync_rustsec_db_security :
      RustsecServices → List SecurityCrateRow → Synced RustsecWrite
  unfolding scan_crates
  sync_rustsec_db_security services crates =
      if not services.configured
      then ([], ok default_outcome)
      else if not services.has_crates
      then ([], err (codes "RustSec database is unavailable: missing crates directory"))
      else scan_crates services crates [] default_outcome
