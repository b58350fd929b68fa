-- ===== src/Advisories/Osv/Ranges.antt =====
-- What `osv_applicability` answers, told without its flag.
use rust_mcp.Prelude.{
  ◌≡◌, refl, Bool, true, false, not, ◌||◌, List, [], ◌∷◌, arith, if◌then◌else◌, any,
}
use rust_mcp.Prelude.Options.{is_some}
use rust_mcp.Text.{Text, codes}
use rust_mcp.Text.Pieces.{split}
use rust_mcp.Semver.{Semver}
use rust_mcp.Advisories.Applicability.{Applicability, affected, not_affected, unknown}
use rust_mcp.Advisories.Osv.{range_events, read_and_affects, osv_ranges, osv_applicability}

module _ (σ : Semver) (version : σ.Version) where
  -- One range that affects the version decides; otherwise one that cannot be read leaves it open.
  unfoldable pub answer : List Text → Bool → Applicability
  answer ranges open_yet =
      if any (λ r. read_and_affects σ (range_events σ r) version) ranges
      then affected
      else if open_yet || any (λ r. not (is_some (range_events σ r))) ranges
      then unknown
      else not_affected

  osv_ranges_lem :
      (ranges : List Text) (seen : Bool) → osv_ranges σ version ranges seen ≡ answer ranges seen
  unfolding osv_ranges answer
  osv_ranges_lem [] true = refl
  osv_ranges_lem [] false = refl
  osv_ranges_lem (range ∷ rest) seen =
      ground (arith, osv_ranges_lem rest (seen || not (is_some (range_events σ range))))

  -- OSV ranges affect the version exactly where one of them can be read and affects it; otherwise the
  -- answer is unknown where one of them cannot be read, and not affected where all can be read.
  pub osv_applicability-answer :
      (ranges : Text)
      → osv_applicability σ ranges version ≡ answer (split (codes "; ") ranges) false
  unfolding osv_applicability
  osv_applicability-answer ranges = osv_ranges_lem (split (codes "; ") ranges) false
