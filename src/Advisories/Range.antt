-- ===== src/Advisories/Range.antt =====
-- `range_applicability` and `ghsa_version_in_range`.
use rust_mcp.Prelude.{Bool, ◌||◌, List, [], ◌∷◌, none, some, if◌then◌else◌, any}
use rust_mcp.Text.{Text, codes, text_eq}
use rust_mcp.Text.Pieces.{contains}
use rust_mcp.Semver.{Semver, parse_semver_for_matching}
use rust_mcp.Advisories.Applicability.{
  Applicability, not_affected, unknown, is_withdrawn, is_affected,
}
use rust_mcp.Advisories.Osv.{osv_applicability}
use rust_mcp.Advisories.Rustsec.{rustsec_applicability}
use rust_mcp.Advisories.Ghsa.{ghsa_applicability}

abbrev rustsec_keys : List Text
rustsec_keys = codes "patched=" ∷ codes "unaffected=" ∷ codes "withdrawn=" ∷ []

module _ (σ : Semver) where
  -- The format is told by the text, then by the source.
  unfoldable pub by_format : Text → Text → σ.Version → Applicability
  by_format source affected_range version =
      if contains (codes "SEMVER(") affected_range || contains (codes "ECOSYSTEM(") affected_range
      then osv_applicability σ affected_range version
      else if text_eq source (codes "rustsec_db")
          || any (λ key. contains key affected_range) rustsec_keys
      then rustsec_applicability σ affected_range version
      else if text_eq source (codes "ghsa")
      then ghsa_applicability σ affected_range version
      else unknown

  unfoldable pub range_applicability : Text → Text → Text → Applicability
  unfolding by_format
  range_applicability source affected_range version =
      if is_withdrawn affected_range
      then not_affected
      else elim (parse_semver_for_matching σ version) [
        | none ↦ unknown
        | some parsed ↦ by_format source affected_range parsed
      ]

  unfoldable pub ghsa_version_in_range : Text → Text → Bool
  unfolding range_applicability
  ghsa_version_in_range version range =
      is_affected (range_applicability (codes "ghsa") range version)
