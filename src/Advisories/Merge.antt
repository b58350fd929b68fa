-- ===== src/Advisories/Merge.antt =====
-- `advisories_for_version` and `advisory_counts`: the stored rows of a crate, one answer for each
-- advisory.
pub mod Verdict
pub mod Entries
pub mod Counts
use rust_mcp.Prelude.{
  ℕ, suc, ◌+◌, ◌≡◌, Bool, true, false, not, ◌&&◌, ◌||◌, List, [], ◌∷◌, ◌++◌, Option, none, some,
  ◌==◌, if◌then◌else◌, any, unwrap_or,
}
use rust_mcp.Order.{Ord, text_ord, pair_ord, option_ord, nat_ord}
use rust_mcp.Order.Sort.{sort_by}
use rust_mcp.BTree.{alter}
use rust_mcp.Text.{Text}
use rust_mcp.Semver.{Semver}
use rust_mcp.Advisories.Applicability.{
  Applicability, affected, not_affected, unknown, is_affected, is_withdrawn,
}
use rust_mcp.Advisories.Range.{range_applicability}

-- A row of `advisory_matches`; the JSON of `fixed_versions` is carried as its text.
pub record CrateAdvisoryRow : Type 0 where
  pub requires_resync : Bool
  pub crate_id : ℕ
  pub version_id : Option ℕ
  pub advisory_id : Text
  pub title : Text
  pub severity : Option Text
  pub url : Option Text
  pub affected_range : Text
  pub fixed_versions : Text
  pub source : Text
  pub details : Option Text
  pub affected_functions : List Text
  pub cwe_ids : List Text

pub record VersionAdvisory : Type 0 where
  pub applicability : Applicability
  pub row : CrateAdvisoryRow

pub record AdvisoryCounts : Type 0 where
  pub affected : ℕ
  pub unknown : ℕ

abbrev pub is_id : Option ℕ → ℕ → Bool
is_id none version_id = false
is_id (some v) version_id = v == version_id

abbrev pub Groups : Type 0
Groups = List (Text × List CrateAdvisoryRow)

-- `by_id.entry(row.advisory_id).or_default().push(row)`.
abbrev pub with_row : CrateAdvisoryRow → Option (List CrateAdvisoryRow) → List CrateAdvisoryRow
with_row row group = unwrap_or [] group ++ (row ∷ [])

unfoldable pub group_rows : Groups → List CrateAdvisoryRow → Groups
group_rows by_id [] = by_id
group_rows by_id (row ∷ rows) =
    group_rows (alter text_ord row.advisory_id (with_row row) by_id) rows

abbrev pub row_order : Ord (Text × (Text × Option ℕ))
row_order = pair_ord text_ord (pair_ord text_ord (option_ord nat_ord))

abbrev pub row_key : CrateAdvisoryRow → Text × (Text × Option ℕ)
row_key row = (row.source, (row.affected_range, row.version_id))

unfoldable pub sort_rows : List CrateAdvisoryRow → List CrateAdvisoryRow
sort_rows = sort_by row_order row_key

-- A withdrawal that is not waiting to be synced again.
abbrev pub withdraws : CrateAdvisoryRow → Bool
withdraws row = not row.requires_resync && is_withdrawn row.affected_range

module _ (σ : Semver) (version_id : ℕ) (version : Text) where
  -- What one row says of the version.
  unfoldable pub row_applicability : CrateAdvisoryRow → Applicability
  row_applicability row =
      if row.requires_resync
      then unknown
      else if is_id row.version_id version_id
      then affected
      else range_applicability σ row.source row.affected_range version

  -- `priority(candidate) > priority(current)`, on pairs of booleans.
  unfoldable pub outranks : VersionAdvisory → VersionAdvisory → Bool
  outranks candidate current =
      let a = is_affected candidate.applicability in
      let c = is_affected current.applicability in
      (a && not c)
      || (((a && c) || (not a && not c))
          && (is_id candidate.row.version_id version_id
              && not (is_id current.row.version_id version_id)))

  abbrev better : Option VersionAdvisory → VersionAdvisory → Option VersionAdvisory
  better none candidate = some candidate
  better (some current) candidate =
      if outranks candidate current then some candidate else some current

  -- One round of the loop: a row that does not affect the version is passed over.
  unfoldable pub consider :
      Applicability → CrateAdvisoryRow → Option VersionAdvisory → Option VersionAdvisory
  unfolding outranks
  consider not_affected row selected = selected
  consider affected row selected = better selected (record { applicability = affected; row = row })
  consider unknown row selected = better selected (record { applicability = unknown; row = row })

  unfoldable pub pick : List CrateAdvisoryRow → Option VersionAdvisory → Option VersionAdvisory
  unfolding consider row_applicability
  pick [] selected = selected
  pick (row ∷ rows) selected = pick rows (consider (row_applicability row) row selected)

  unfoldable pub merge_group : List CrateAdvisoryRow → Option VersionAdvisory
  unfolding pick sort_rows
  merge_group rows = if any withdraws (sort_rows rows) then none else pick (sort_rows rows) none

  abbrev pub pushed : Option VersionAdvisory → List VersionAdvisory → List VersionAdvisory
  pushed none rest = rest
  pushed (some a) rest = a ∷ rest

  unfoldable pub merge_groups : Groups → List VersionAdvisory
  unfolding merge_group
  merge_groups [] = []
  merge_groups ((id, rows) ∷ rest) = pushed (merge_group rows) (merge_groups rest)

  unfoldable pub advisories_for_version : List CrateAdvisoryRow → List VersionAdvisory
  unfolding merge_groups group_rows
  advisories_for_version rows = merge_groups (group_rows [] rows)

  abbrev pub count : Applicability → AdvisoryCounts → AdvisoryCounts
  count affected c = record c { affected = c.affected + 1 }
  count unknown c = record c { unknown = c.unknown + 1 }
  count not_affected c = c

  unfoldable pub count_each : List VersionAdvisory → AdvisoryCounts → AdvisoryCounts
  count_each [] counts = counts
  count_each (a ∷ rest) counts = count_each rest (count a.applicability counts)

  unfoldable pub advisory_counts : List CrateAdvisoryRow → AdvisoryCounts
  unfolding count_each advisories_for_version
  advisory_counts rows =
      count_each (advisories_for_version rows) (record { affected = 0; unknown = 0 })
