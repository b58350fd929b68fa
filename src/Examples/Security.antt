-- ===== src/Examples/Security.antt =====
-- The security sync on concrete inputs.
use rust_mcp.Prelude.{
  ◌++◌, true, ℕ, ◌↔◌, refl, List, [], ◌∷◌, none, some, ok, err, In, here, All, ltb, leb, length,
}
use rust_mcp.Order.Sort.{dedup, sort_by}
use rust_mcp.Text.{codes}
use rust_mcp.Security.{
  SecurityCrateRow, SecuritySyncOutcome, default_outcome, sources, sync_security_crates,
}
use rust_mcp.Security.Checked.{Confirms, sync_security_crates-checked}
use rust_mcp.Security.Records.{OsvVulnerability}
use rust_mcp.Security.Severity.{Floats}
use rust_mcp.Security.Osv.{Services, Write, crate_writes}
use rust_mcp.Security.Rustsec.{
  AdvisoryFile, RustSecFrontmatter, RustsecServices, RustsecWrite,
  clear_rustsec_db_advisory_matches, files_writes, stored, scan_crate, sync_rustsec_db_security,
}
use rust_mcp.Security.Rustsec.Whole.{IsStored, sync_rustsec_db_security-IsStored}
use rust_mcp.Examples.Instances.{triples}

abbrev time_crate : SecurityCrateRow
time_crate = record { id = 7; name = codes "time" }

abbrev seven_checked : SecuritySyncOutcome
seven_checked = record default_outcome { checked_crate_ids = 7 ∷ [] }

sync_security_crates-checked_example :
    In {A = ℕ} 7
      (sync_security_crates
        (time_crate ∷ [])
        (ok seven_checked)
        (ok seven_checked)
        (some (err (codes "unavailable")))).checked_crate_ids
    ↔ (In {A = ℕ} 7 (7 ∷ [])
        × All
            (Confirms 7)
            (sources (ok seven_checked) (ok seven_checked) (some (err (codes "unavailable")))))
sync_security_crates-checked_example =
    sync_security_crates-checked (time_crate ∷ []) (ok seven_checked) (ok seven_checked)
      (some (err (codes "unavailable"))) 7

-- Numbers stand for floats; a text's length is what it is read as.
abbrev whole_floats : Floats ℕ
whole_floats = record {
  parse = λ s. some (length s);
  at_least = λ f n. leb n f;
  positive = λ f. ltb 0 f;
}

abbrev vulnerability : OsvVulnerability
vulnerability = record {
  id = codes "GHSA-1";
  withdrawn = none;
  summary = none;
  details = none;
  aliases = codes "RUSTSEC-2020-0071" ∷ [];
  affected =
      record {
        of_package = some (record { ecosystem = codes "crates.io"; name = codes "time" });
        versions = codes "0.1.0" ∷ [];
        ranges = [];
        functions = none;
      }
      ∷ [];
  references = [];
  severity = [];
  database_specific = none;
}

abbrev services : Services whole_floats
services = record {
  versions = λ krate. ok ((codes "0.1.0", 70) ∷ []);
  query_crate = λ name. ok (vulnerability ∷ []);
  refused = λ krate. none;
  invalidation = λ name. none;
}

abbrev rows : List Write
rows = crate_writes whole_floats time_crate ((codes "0.1.0", 70) ∷ []) (vulnerability ∷ [])

abbrev advisory_file : AdvisoryFile
advisory_file = record {
  path = codes "crates/time/RUSTSEC-2020-0071.md";
  stem = some (codes "RUSTSEC-2020-0071");
  text = ok (codes "+++" ++ (10 ∷ codes "x" ++ (10 ∷ codes "+++" ++ (10 ∷ codes "body"))));
}

abbrev front_matter : RustSecFrontmatter
front_matter = record {
  id = none;
  of_package = some (codes "time");
  title = none;
  description = none;
  url = none;
  cvss = none;
  withdrawn = none;
  aliases = [];
  categories = [];
  patched = [];
  unaffected = [];
  functions = [];
}

abbrev database : RustsecServices triples whole_floats
database = record {
  configured = true;
  has_crates = true;
  advisory_files = λ krate. advisory_file ∷ [];
  parse_toml = λ text. ok front_matter;
  versions = λ krate. ok [];
  refused = λ krate. none;
  invalidation = λ name. none;
}

abbrev database_rows : List RustsecWrite
database_rows = (files_writes triples whole_floats database time_crate [] (advisory_file ∷ [])).1

abbrev database_log : List (List RustsecWrite)
database_log = (clear_rustsec_db_advisory_matches 7 ∷ database_rows) ∷ []

sync_rustsec_db_security-IsStored_example :
    IsStored triples whole_floats database (time_crate ∷ []) database_log 7
sync_rustsec_db_security-IsStored_example =
    sync_rustsec_db_security-IsStored triples whole_floats database (time_crate ∷ []) database_log
      (stored triples whole_floats time_crate database_rows default_outcome) 7
      (unfold sync_rustsec_db_security scan_crate files_writes dedup sort_by in refl) (here refl)
