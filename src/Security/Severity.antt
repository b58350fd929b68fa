-- ===== src/Security/Severity.antt =====
-- The severity label of a vulnerability: `extract_first_float` and `normalize_severity_label` of
-- crates/rust-mcp/src/mcp/indexing/security.rs. Floating-point numbers are a parameter.
use rust_mcp.Security.Records.{OsvSeverity, OsvDatabaseSpecific}
use rust_mcp.Prelude.{
  ℕ, Bool, ◌&&◌, ◌||◌, List, [], ◌∷◌, ◌++◌, Option, none, some, if◌then◌else◌, any, is_empty, leb,
  ◌==◌,
}
use rust_mcp.Prelude.Options.{◌>>=◌, mapped, or_else}
use rust_mcp.Text.{Text, codes, text_eq, to_lower}
use rust_mcp.Text.Pieces.{contains}

-- The characters of the first number of a text: digits and dots; `token` holds what was taken so far.
float_token : Text → Text → Text
float_token token [] = token
float_token token (ch ∷ text) =
    let stay = float_token (token ++ (ch ∷ [])) text in
    let skip = float_token token text in
    if (leb b'0' ch && leb ch b'9') || ch == b'.'
    then stay
    else if is_empty token
    then skip
    else token

-- `f64`: parsing, `score >= n.0`, and `score > 0.0`.
pub record Floats (F : Type 0) : Type 0 where
  pub parse : Text → Option F
  pub at_least : F → ℕ → Bool
  pub positive : F → Bool

module _ {F : Type 0} (floats : Floats F) where
  unfoldable pub extract_first_float : Text → Option F
  unfolding float_token
  extract_first_float text =
      let token = float_token [] text in if is_empty token then none else floats.parse token

  unfoldable pub score_label : F → Text
  score_label score =
      if floats.at_least score 9
      then codes "critical"
      else if floats.at_least score 7
      then codes "high"
      else if floats.at_least score 4
      then codes "medium"
      else if floats.positive score
      then codes "low"
      else codes "unknown"

  abbrev kind_label : Option Text → Option Text
  unfolding contains to_lower
  kind_label none = none
  kind_label (some severity_type) =
      let kind = to_lower severity_type in
      if contains (codes "critical") kind
        || contains (codes "high") kind
        || contains (codes "medium") kind
        || contains (codes "low") kind
      then some kind
      else none

  abbrev item_label : OsvSeverity → Option Text
  unfolding extract_first_float score_label
  item_label item =
      or_else (mapped score_label (item.score >>= extract_first_float))
        (kind_label item.severity_type)

  items_label : List OsvSeverity → Option Text
  unfolding extract_first_float score_label contains to_lower
  items_label [] = none
  items_label (item ∷ items) = or_else (item_label item) (items_label items)

  abbrev database_label : Option Text → Option Text
  unfolding text_eq to_lower
  database_label none = none
  database_label (some label) =
      let lower = to_lower label in
      if any (text_eq lower)
        (codes "critical" ∷ codes "high" ∷ codes "medium" ∷ codes "low" ∷ codes "unknown" ∷ [])
      then some lower
      else none

  unfoldable pub normalize_severity_label :
      List OsvSeverity → Option OsvDatabaseSpecific → Option Text
  unfolding items_label text_eq to_lower
  normalize_severity_label severity database_specific =
      or_else (database_specific >>= λ db. database_label db.severity) (items_label severity)
