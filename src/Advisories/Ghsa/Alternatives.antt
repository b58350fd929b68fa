-- ===== src/Advisories/Ghsa/Alternatives.antt =====
-- What `ghsa_applicability` answers, told without its flags.
use rust_mcp.Prelude.{
  ◌≡◌, refl, Bool, true, false, not, ◌&&◌, ◌||◌, List, [], ◌∷◌, Option, none, some, arith,
  if◌then◌else◌, any, all, Option-cases, inl, inr,
}
use rust_mcp.Prelude.Options.{is_some}
use rust_mcp.Text.{Text, codes}
use rust_mcp.Text.Pieces.{split}
use rust_mcp.Semver.{Semver}
use rust_mcp.Advisories.Applicability.{Applicability, affected, not_affected, unknown}
use rust_mcp.Advisories.Ghsa.{
  Operator, compare_by, parse_comparator, judged, comparators, alternatives, ghsa_applicability,
}

module _ (σ : Semver) (version : σ.Version) where
  holds : Option (Operator × σ.Version) → Bool
  holds none = true
  holds (some (op, bound)) = compare_by σ op version bound

  -- Every comparator of an alternative can be read.
  unfoldable pub is_readable : Text → Bool
  is_readable range = all (λ c. is_some (parse_comparator σ c)) (split (codes ",") range)

  -- Every comparator of an alternative that can be read holds for the version.
  unfoldable pub is_satisfied : Text → Bool
  unfolding holds
  is_satisfied range = all (λ c. holds (parse_comparator σ c)) (split (codes ",") range)

  comparators_lem :
      (cs : List Text) (m valid : Bool)
      → comparators σ version cs m valid ≡ (
        m && all (λ c. holds (parse_comparator σ c)) cs,
        valid && all (λ c. is_some (parse_comparator σ c)) cs,
      )
  unfolding comparators holds
  comparators_lem [] m valid = ground arith
  comparators_lem (c ∷ cs) m valid = elim (Option-cases (parse_comparator σ c)) [
    | inl e ↦ rw e (unfold judged in rw (comparators_lem cs m false) (ground arith))
    | inr (x, e) ↦ rw e (
        unfold judged in
        rw (comparators_lem cs (m && compare_by σ x.0 version x.1) valid) (ground arith))
  ]

  -- One alternative that can be read and holds decides; otherwise one that cannot be read leaves the
  -- answer open.
  unfoldable pub answer : List Text → Bool → Applicability
  answer ranges open_yet =
      if any (λ r. is_readable r && is_satisfied r) ranges
      then affected
      else if open_yet || any (λ r. not (is_readable r)) ranges
      then unknown
      else not_affected

  alternatives_lem :
      (ranges : List Text) (seen : Bool) → alternatives σ version ranges seen ≡ answer ranges seen
  unfolding alternatives answer is_readable is_satisfied
  alternatives_lem [] true = refl
  alternatives_lem [] false = refl
  alternatives_lem (range ∷ rest) seen =
      rw (comparators_lem (split (codes ",") range) true true)
        (ground (arith, alternatives_lem rest (seen || not (is_readable range))))

  -- A GitHub range affects the version exactly where some alternative has only comparators that can
  -- be read and that hold for the version; otherwise the answer is unknown where some alternative
  -- has a comparator that cannot be read, and not affected where all can be read.
  pub ghsa_applicability-answer :
      (ranges : Text)
      → ghsa_applicability σ ranges version ≡ answer (split (codes " || ") ranges) false
  unfolding ghsa_applicability
  ghsa_applicability-answer ranges = alternatives_lem (split (codes " || ") ranges) false
