-- ===== src/Advisories/Merge/Counts.antt =====
-- `advisory_counts` against the entries.
use rust_mcp.Prelude.{
  ℕ, ◌+◌, ◌≡◌, ◌≢◌, refl, List, [], ◌∷◌, Option, none, some, arith, select, length, All,
}
use rust_mcp.Text.{Text}
use rust_mcp.Semver.{Semver}
use rust_mcp.Advisories.Applicability.{Applicability, affected, not_affected, unknown, is_affected}
use rust_mcp.Advisories.Merge.{
  CrateAdvisoryRow, VersionAdvisory, AdvisoryCounts, Groups, merge_group, merge_groups, pushed,
  group_rows, advisories_for_version, count, count_each, advisory_counts,
}
use rust_mcp.Advisories.Merge.Verdict.{is_unknown, IsOpen, merge_group-IsOpen}

module _ (σ : Semver) (version_id : ℕ) (version : Text) where
  abbrev AreOpen : List VersionAdvisory → Type 0
  AreOpen entries = All (λ a. a.applicability ≢ not_affected) entries

  pushed-AreOpen :
      (o : Option VersionAdvisory) (rest : List VersionAdvisory)
      → IsOpen σ version_id version o
      → AreOpen rest
      → AreOpen (pushed σ version_id version o rest)
  pushed-AreOpen none rest h k = k
  pushed-AreOpen (some a) rest h k = (h, k)

  merge_groups-AreOpen : (m : Groups) → AreOpen (merge_groups σ version_id version m)
  unfolding merge_groups
  merge_groups-AreOpen [] = tt
  merge_groups-AreOpen ((id, rows) ∷ m) =
      pushed-AreOpen (merge_group σ version_id version rows) (merge_groups σ version_id version m)
        (merge_group-IsOpen σ version_id version rows) (merge_groups-AreOpen m)

  -- The counts of a list of entries.
  record IsCountOf (entries : List VersionAdvisory) (before after : AdvisoryCounts) : Type 0 where
    affecting :
        after.affected
        ≡ before.affected + length (select (λ a. is_affected a.applicability) entries)
    leaving_open :
        after.unknown ≡ before.unknown + length (select (λ a. is_unknown a.applicability) entries)
    all_counted : after.affected + after.unknown ≡ before.affected + before.unknown + length entries

  counted_first :
      (a : Applicability) (row : CrateAdvisoryRow) (rest : List VersionAdvisory)
      (before after : AdvisoryCounts)
      → a ≢ not_affected
      → IsCountOf rest (count σ version_id version a before) after
      → IsCountOf (record { applicability = a; row = row } ∷ rest) before after
  counted_first affected row rest before after n h = record {
    affecting = omega (arith, h.affecting);
    leaving_open = omega (arith, h.leaving_open);
    all_counted = omega (arith, h.all_counted);
  }
  counted_first unknown row rest before after n h = record {
    affecting = omega (arith, h.affecting);
    leaving_open = omega (arith, h.leaving_open);
    all_counted = omega (arith, h.all_counted);
  }
  counted_first not_affected row rest before after n h = absurd (n refl)

  count_each-IsCountOf :
      (entries : List VersionAdvisory) (before : AdvisoryCounts)
      → AreOpen entries
      → IsCountOf entries before (count_each σ version_id version entries before)
  unfolding count_each
  count_each-IsCountOf [] before h = record {
    affecting = omega arith;
    leaving_open = omega arith;
    all_counted = omega arith;
  }
  count_each-IsCountOf (a ∷ rest) before h =
      counted_first a.applicability a.row rest before _ h.0
        (count_each-IsCountOf rest (count σ version_id version a.applicability before) h.1)

  -- The two counts are the numbers of entries that affect the version and that leave it open, and
  -- together they count every entry once.
  pub advisory_counts-advisories_for_version :
      (rows : List CrateAdvisoryRow)
      → let entries = advisories_for_version σ version_id version rows in
        let counts = advisory_counts σ version_id version rows in
        (counts.affected
          ≡ length (select (λ (a : VersionAdvisory). is_affected a.applicability) entries))
        × (counts.unknown
            ≡ length (select (λ (a : VersionAdvisory). is_unknown a.applicability) entries))
        × (counts.affected + counts.unknown ≡ length entries)
  unfolding advisory_counts advisories_for_version
  advisory_counts-advisories_for_version rows =
      let m = group_rows [] rows in
      let h =
        count_each-IsCountOf (merge_groups σ version_id version m)
          (record { affected = 0; unknown = 0 }) (merge_groups-AreOpen m) in
      (omega (arith, h.affecting), omega (arith, h.leaving_open), omega (arith, h.all_counted))
