-- ===== src/Advisories/Ghsa.antt =====
-- GitHub's ranges, comparators joined by `,` in alternatives joined by ` || `:
-- `ghsa_applicability`.
pub mod Alternatives
use rust_mcp.Prelude.{
  Bool, true, false, not, ◌&&◌, ◌||◌, List, [], ◌∷◌, Option, none, some, if◌then◌else◌,
}
use rust_mcp.Prelude.Options.{◌>>=◌, mapped, or_else}
use rust_mcp.Text.{Text, codes, trim}
use rust_mcp.Text.Pieces.{split, strip_prefix}
use rust_mcp.Semver.{Semver, parse_semver_for_matching, same_version}
use rust_mcp.Advisories.Applicability.{Applicability, affected, unless_unknown}

pub data Operator : Type 0 where
  ge le gt lt eq : Operator

abbrev spelling : Operator → Text
spelling ge = codes ">="
spelling le = codes "<="
spelling gt = codes ">"
spelling lt = codes "<"
spelling eq = codes "="

-- `find_map` over the operators in the order of the source, each with the bound behind it.
unfoldable pub find_operator : List Operator → Text → Option (Operator × Text)
find_operator [] comparator = none
find_operator (op ∷ ops) comparator =
    or_else (mapped (λ bound. (op, trim bound)) (strip_prefix (spelling op) comparator))
      (find_operator ops comparator)

abbrev pub operators : List Operator
operators = ge ∷ le ∷ gt ∷ lt ∷ eq ∷ []

module _ (σ : Semver) where
  open σ use {Version, order}

  unfoldable pub compare_by : Operator → Version → Version → Bool
  compare_by ge version bound = not (order.lt version bound)
  compare_by le version bound = not (order.lt bound version)
  compare_by gt version bound = order.lt bound version
  compare_by lt version bound = order.lt version bound
  compare_by eq version bound = same_version σ version bound

  -- A comparator that can be read.
  unfoldable pub parse_comparator : Text → Option (Operator × Version)
  unfolding find_operator
  parse_comparator comparator = do
    (op, bound) ← find_operator operators (trim comparator)
    bound ← parse_semver_for_matching σ bound
    some (op, bound)

  -- The flags `matches` and `valid` after one comparator.
  unfoldable pub judged : Version → Option (Operator × Version) → Bool → Bool → Bool × Bool
  unfolding compare_by
  judged version none matches valid = (matches, false)
  judged version (some (op, bound)) matches valid = (matches && compare_by op version bound, valid)

  -- The same of one alternative.
  unfoldable pub comparators : Version → List Text → Bool → Bool → Bool × Bool
  unfolding parse_comparator judged
  comparators version [] matches valid = (matches, valid)
  comparators version (c ∷ rest) matches valid =
      let flags = judged version (parse_comparator c) matches valid in
      comparators version rest flags.0 flags.1

  unfoldable pub alternatives : Version → List Text → Bool → Applicability
  unfolding comparators
  alternatives version [] seen_unknown = unless_unknown seen_unknown
  alternatives version (range ∷ rest) seen_unknown =
      let (matches, valid) = comparators version (split (codes ",") range) true true in
      let later = alternatives version rest (seen_unknown || not valid) in
      if valid && matches then affected else later

  unfoldable pub ghsa_applicability : Text → Version → Applicability
  unfolding alternatives
  ghsa_applicability ranges version = alternatives version (split (codes " || ") ranges) false
