-- ===== src/Examples/Advice.antt =====
-- Advisory ranges and rows on concrete inputs.
use rust_mcp.Advisories.Applicability.{is_affected}
use rust_mcp.Advisories.Ghsa.{ghsa_applicability}
use rust_mcp.Advisories.Ghsa.Alternatives
use rust_mcp.Advisories.Ghsa.Alternatives.{ghsa_applicability-answer}
use rust_mcp.Advisories.Osv.{osv_applicability}
use rust_mcp.Advisories.Osv.Ranges
use rust_mcp.Advisories.Osv.Ranges.{osv_applicability-answer}
use rust_mcp.Advisories.Merge.{VersionAdvisory, advisory_counts}
use rust_mcp.Advisories.Merge.Verdict.{is_unknown}
use rust_mcp.Advisories.Merge.Counts.{advisory_counts-advisories_for_version}
use rust_mcp.Prelude.{◌+◌, length, select}
use rust_mcp.Prelude.{◌≡◌, refl, true, false, ◌↔◌, List, [], ◌∷◌, some, none}
use rust_mcp.Order.{pair_lt, option_lt}
use rust_mcp.Order.Sort.{sort_by}
use rust_mcp.Text.{Text, codes, trim, text_eq}
use rust_mcp.Text.Pieces.{split, split_once}
use rust_mcp.Semver.{parse_semver_for_matching}
use rust_mcp.Advisories.Osv.{
  OsvRange, introduced, fixed, sort_events, parse_osv_events, osv_range_affects,
}
use rust_mcp.Advisories.Osv.Intervals.{IsBelowLimit, IsExposed, osv_range_affects_iff}
use rust_mcp.Advisories.Merge.{CrateAdvisoryRow, advisories_for_version}
use rust_mcp.Advisories.Merge.Verdict.{verdict}
use rust_mcp.Advisories.Merge.Entries.{
  answer_for, of_id, InOrder, advisories_for_version-verdict, advisories_for_version-InOrder,
}
use rust_mcp.Examples.Instances.{triples, parse_triple}

abbrev range_text : Text
range_text = codes "introduced=0,fixed=1.2.0,introduced=2.0.0"

abbrev parsed_range : OsvRange triples
parsed_range = record {
  events = (none, introduced) ∷ (some (1, (2, 0)), fixed) ∷ (some (2, (0, 0)), introduced) ∷ [];
  limits = [];
}

osv_range_affects_iff_example : (osv_range_affects triples parsed_range (2, (1, 0)) ≡ true) ↔ (
    IsBelowLimit triples (2, (1, 0)) parsed_range
    × IsExposed triples (2, (1, 0)) parsed_range.events)
osv_range_affects_iff_example =
    osv_range_affects_iff triples (2, (1, 0)) range_text parsed_range
      (unfold parse_triple parse_osv_events split split_once trim text_eq parse_semver_for_matching
          sort_events sort_by pair_lt option_lt in
        refl)

abbrev advisory_row : Text → Text → Text → CrateAdvisoryRow
advisory_row id source range = record {
  requires_resync = false;
  crate_id = 1;
  version_id = none;
  advisory_id = id;
  title = codes "overflow";
  severity = none;
  url = none;
  affected_range = range;
  fixed_versions = [];
  source = source;
  details = none;
  affected_functions = [];
  cwe_ids = [];
}

abbrev advisory_rows : List CrateAdvisoryRow
advisory_rows =
    advisory_row (codes "B") (codes "ghsa") (codes ">= 1.0.0, < 1.4.0")
    ∷ advisory_row (codes "A") (codes "osv") (codes "SEMVER(introduced=0,fixed=1.2.0)")
    ∷ advisory_row (codes "B") (codes "rustsec_db") (codes "patched=>=1.4.0")
    ∷ []

advisories_for_version-verdict_example :
    answer_for triples 7
      (codes "1.3.0")
      (codes "B")
      (advisories_for_version triples 7 (codes "1.3.0") advisory_rows)
    ≡ verdict triples 7 (codes "1.3.0") (of_id (codes "B") advisory_rows)
advisories_for_version-verdict_example =
    advisories_for_version-verdict triples 7 (codes "1.3.0") (codes "B") advisory_rows

advisories_for_version-InOrder_example :
    InOrder triples 7
      (codes "1.3.0")
      (advisories_for_version triples 7 (codes "1.3.0") advisory_rows)
advisories_for_version-InOrder_example =
    advisories_for_version-InOrder triples 7 (codes "1.3.0") advisory_rows

ghsa_applicability-answer_example :
    ghsa_applicability triples (codes "< 1.0.0 || >= 2.0.0, < 2.1.0") (2, (0, 5))
    ≡ Alternatives.answer triples
        (2, (0, 5))
        (split (codes " || ") (codes "< 1.0.0 || >= 2.0.0, < 2.1.0"))
        false
ghsa_applicability-answer_example =
    ghsa_applicability-answer triples (2, (0, 5)) (codes "< 1.0.0 || >= 2.0.0, < 2.1.0")

osv_applicability-answer_example :
    osv_applicability triples (codes "SEMVER(introduced=0,fixed=1.0.0); GIT(abc)") (2, (0, 5))
    ≡ Ranges.answer triples
        (2, (0, 5))
        (split (codes "; ") (codes "SEMVER(introduced=0,fixed=1.0.0); GIT(abc)"))
        false
osv_applicability-answer_example =
    osv_applicability-answer triples (2, (0, 5))
      (codes "SEMVER(introduced=0,fixed=1.0.0); GIT(abc)")

advisory_counts-advisories_for_version_example :
    let entries = advisories_for_version triples 7 (codes "1.3.0") advisory_rows in
    let counts = advisory_counts triples 7 (codes "1.3.0") advisory_rows in
    (counts.affected
      ≡ length (select (λ (a : VersionAdvisory). is_affected a.applicability) entries))
    × (counts.unknown
        ≡ length (select (λ (a : VersionAdvisory). is_unknown a.applicability) entries))
    × (counts.affected + counts.unknown ≡ length entries)
advisory_counts-advisories_for_version_example =
    advisory_counts-advisories_for_version triples 7 (codes "1.3.0") advisory_rows
