-- ===== src/Advisories/Merge/Verdict.antt =====
-- What `advisories_for_version` answers for each advisory, told from the rows without their order.
use rust_mcp.Prelude.{
  ℕ, ◌≡◌, ◌≢◌, refl, Bool, true, false, ◌||◌, List, [], ◌∷◌, Option, none, some, arith,
  if◌then◌else◌, any,
}
use rust_mcp.Prelude.Options.{mapped, is_some}
use rust_mcp.Order.Sort.{any-sort_by}
use rust_mcp.Text.{Text}
use rust_mcp.Semver.{Semver}
use rust_mcp.Advisories.Applicability.{Applicability, affected, not_affected, unknown, is_affected}
use rust_mcp.Advisories.Merge.{
  CrateAdvisoryRow, VersionAdvisory, row_order, row_key, sort_rows, withdraws, row_applicability,
  outranks, consider, pick, merge_group,
}

abbrev pub is_unknown : Applicability → Bool
is_unknown unknown = true
is_unknown _ = false

module _ (σ : Semver) (version_id : ℕ) (version : Text) where
  abbrev affects : CrateAdvisoryRow → Bool
  affects row = is_affected (row_applicability σ version_id version row)

  abbrev leaves_open : CrateAdvisoryRow → Bool
  leaves_open row = is_unknown (row_applicability σ version_id version row)

  -- The answer of a set of rows of one advisory: a withdrawal silences them all, one row that
  -- affects the version decides, and otherwise one row of unknown applicability does.
  unfoldable pub verdict : List CrateAdvisoryRow → Option Applicability
  verdict rows =
      if any withdraws rows
      then none
      else if any affects rows
      then some affected
      else if any leaves_open rows
      then some unknown
      else none

  abbrev answer : Option VersionAdvisory → Option Applicability
  answer = mapped (λ a. a.applicability)

  abbrev pub IsOpen : Option VersionAdvisory → Type 0
  IsOpen none = Unit
  IsOpen (some a) = a.applicability ≢ not_affected

  abbrev is_selected_affected : Option VersionAdvisory → Bool
  is_selected_affected none = false
  is_selected_affected (some a) = is_affected a.applicability

  IsOpen-if :
      (b : Bool) (s t : Option VersionAdvisory) → IsOpen s → IsOpen t → IsOpen (if b then s else t)
  IsOpen-if true s t h k = h
  IsOpen-if false s t h k = k

  consider-IsOpen :
      (a : Applicability) (row : CrateAdvisoryRow) (s : Option VersionAdvisory)
      → IsOpen s
      → IsOpen (consider σ version_id version a row s)
  unfolding consider
  consider-IsOpen affected row none h = λ e. cc
  consider-IsOpen unknown row none h = λ e. cc
  consider-IsOpen not_affected row s h = h
  consider-IsOpen affected row (some x) h =
      let a : VersionAdvisory = record { applicability = affected; row = row } in
      IsOpen-if (outranks σ version_id version a x) (some a) (some x) (λ e. cc) h
  consider-IsOpen unknown row (some x) h =
      let a : VersionAdvisory = record { applicability = unknown; row = row } in
      IsOpen-if (outranks σ version_id version a x) (some a) (some x) (λ e. cc) h

  pick-IsOpen :
      (rows : List CrateAdvisoryRow) (s : Option VersionAdvisory)
      → IsOpen s
      → IsOpen (pick σ version_id version rows s)
  unfolding pick
  pick-IsOpen [] s h = h
  pick-IsOpen (row ∷ rows) s h =
      let a = row_applicability σ version_id version row in
      pick-IsOpen rows (consider σ version_id version a row s) (consider-IsOpen a row s h)

  pub merge_group-IsOpen :
      (rows : List CrateAdvisoryRow) → IsOpen (merge_group σ version_id version rows)
  unfolding merge_group sort_rows
  merge_group-IsOpen rows =
      IsOpen-if (any withdraws (sort_rows rows)) none
        (pick σ version_id version (sort_rows rows) none) tt (pick-IsOpen (sort_rows rows) none tt)

  -- A round raises the choice to the row's level, and never lowers it.
  affected-consider :
      (a : Applicability) (row : CrateAdvisoryRow) (s : Option VersionAdvisory)
      → is_selected_affected (consider σ version_id version a row s)
        ≡ (is_selected_affected s || is_affected a)
  unfolding consider
  affected-consider affected row none = refl
  affected-consider unknown row none = refl
  affected-consider not_affected row none = refl
  affected-consider affected row (some x) = ground arith
  affected-consider unknown row (some x) = ground arith
  affected-consider not_affected row (some x) = ground arith

  is_some-consider :
      (a : Applicability) (row : CrateAdvisoryRow) (s : Option VersionAdvisory)
      → is_some (consider σ version_id version a row s)
        ≡ (is_some s || (is_affected a || is_unknown a))
  unfolding consider
  is_some-consider affected row none = refl
  is_some-consider unknown row none = refl
  is_some-consider not_affected row none = refl
  is_some-consider affected row (some x) = ground arith
  is_some-consider unknown row (some x) = ground arith
  is_some-consider not_affected row (some x) = ground arith

  answer_open :
      (s : Option VersionAdvisory)
      → IsOpen s
      → answer s ≡ (
          if is_selected_affected s
          then some affected
          else if is_some s
          then some unknown
          else none)
  answer_open none h = refl
  answer_open (some x) h = ground arith

  answer-pick :
      (rows : List CrateAdvisoryRow) (s : Option VersionAdvisory)
      → IsOpen s
      → answer (pick σ version_id version rows s) ≡ (
          if is_selected_affected s || any affects rows
          then some affected
          else if is_some s || any leaves_open rows
          then some unknown
          else none)
  unfolding pick
  answer-pick [] s h = rw (answer_open s h) (ground arith)
  answer-pick (row ∷ rows) s h =
      let a = row_applicability σ version_id version row in
      let s' = consider σ version_id version a row s in
      ground (
        arith,
        answer-pick rows s' (consider-IsOpen a row s h),
        affected-consider a row s,
        is_some-consider a row s,
      )

  -- The order of the rows does not matter.
  pub merge_group-verdict :
      (rows : List CrateAdvisoryRow) → answer (merge_group σ version_id version rows) ≡ verdict rows
  unfolding merge_group verdict sort_rows
  merge_group-verdict rows = ground (
    arith,
    any-sort_by row_order row_key withdraws rows,
    any-sort_by row_order row_key affects rows,
    any-sort_by row_order row_key leaves_open rows,
    answer-pick (sort_rows rows) none tt,
  )
