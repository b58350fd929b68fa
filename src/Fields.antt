-- ===== src/Fields.antt =====
-- The text helpers of crates/rust-mcp/src/mcp/utils.rs that requests and rows go through.
pub mod Dedupe
use rust_mcp.Prelude.{
  ℕ, ◌+◌, Bool, true, false, not, ◌&&◌, ◌||◌, List, [], ◌∷◌, ◌++◌, map, Option, none, some, ltb,
  if◌then◌else◌, is_empty, select, any, take, length, unwrap_or, Result, ok, err,
}
use rust_mcp.Prelude.Options.{◌>>=◌, is_some}
use rust_mcp.Order.{text_ord}
use rust_mcp.Order.Sort.{sort_by, dedup}
use rust_mcp.Text.{Text, codes, trim, to_lower, eq_ignore_case}
use rust_mcp.Text.Pieces.{split, contains}

abbrev pub nonempty : Text → Option Text
nonempty [] = none
nonempty (c ∷ s) = some (c ∷ s)

unfoldable pub normalize_optional : Option Text → Option Text
unfolding trim
normalize_optional value = value >>= λ v. nonempty (trim v)

-- The error names the field.
unfoldable pub normalize_required : Text → Text → Result Text Text
unfolding trim
normalize_required value field =
    let trimmed = trim value in
    if is_empty trimmed then err (field ++ codes " must not be empty") else ok trimmed

abbrev first_piece : Text → List Text → Text
first_piece docs [] = docs
first_piece docs (s ∷ rest) = s

-- What stands before the first blank line.
unfoldable pub doc_summary : Text → Text
unfolding split trim
doc_summary docs = trim (first_piece docs (split (10 ∷ 10 ∷ []) docs))

abbrev pub trimmed_nonempty : List Text → List Text
unfolding trim
trimmed_nonempty values = select (λ v. not (is_empty v)) (map trim values)

unfoldable pub dedupe_strings : List Text → List Text
unfolding trimmed_nonempty
dedupe_strings values = dedup text_ord (sort_by text_ord (λ v. v) (trimmed_nonempty values))

unfoldable pub truncate_optional_text : Option Text → ℕ → Option Text × Bool
truncate_optional_text none max_chars = (none, false)
truncate_optional_text (some text) max_chars =
    (some (take max_chars text), ltb max_chars (length text))

-- The part of a row of the crate search that matches are told from.
pub record CrateSearchRow : Type 0 where
  pub name : Text
  pub description : Option Text
  pub keywords : List Text
  pub categories : List Text

abbrev reason : Bool → Text → List Text
reason true text = text ∷ []
reason false text = []

abbrev matches_query : Text → Text → Bool
unfolding to_lower contains eq_ignore_case
matches_query q v = eq_ignore_case v q || contains (to_lower q) (to_lower v)

query_reasons : CrateSearchRow → Option Text → List Text
unfolding to_lower contains matches_query
query_reasons row none = []
query_reasons row (some q) =
    reason (contains (to_lower q) (to_lower row.name)) (codes "name_match")
    ++ (reason (contains (to_lower q) (to_lower (unwrap_or [] row.description)))
          (codes "description_match")
        ++ (reason (any (matches_query q) row.keywords) (codes "keyword_match")
            ++ reason (any (matches_query q) row.categories) (codes "category_match")))

filter_reasons : List Text → Option Text → Text → List Text
unfolding eq_ignore_case
filter_reasons values none text = []
filter_reasons values (some wanted) text = reason (any (λ v. eq_ignore_case v wanted) values) text

unfoldable pub match_reasons : CrateSearchRow → Option Text → Option Text → Option Text → List Text
unfolding query_reasons filter_reasons
match_reasons row query category keyword =
    query_reasons row query
    ++ (filter_reasons row.categories category (codes "category_filter_match")
        ++ filter_reasons row.keywords keyword (codes "keyword_filter_match"))
