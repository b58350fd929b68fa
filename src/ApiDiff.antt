-- ===== src/ApiDiff.antt =====
-- `crate_api_diff`, crates/rust-mcp/src/mcp/tools/krate/api_diff.rs: the symbols of two versions of
-- a crate, each told by name and kind, and the changes between them.
pub mod Changes
pub mod Counts
pub mod Symbols
use rust_mcp.Prelude.{
  ℕ, suc, ◌+◌, Bool, true, false, not, ◌&&◌, ◌||◌, List, [], ◌∷◌, ◌++◌, map, Option, none, some,
  leb, ltb, if◌then◌else◌, is_empty, unwrap_or,
}
use rust_mcp.Prelude.Options.{◌>>=◌, mapped, is_some}
use rust_mcp.Order.{Ord, text_ord, pair_ord, nat_ord}
use rust_mcp.Order.Sort.{sort_by}
use rust_mcp.BTree.{get, alter}
use rust_mcp.Text.{Text, codes, trim, to_lower, text_eq}

pub record ApiDiffSymbolRow : Type 0 where
  pub name : Text
  pub kind : Text
  pub signature : Option Text
  pub visibility : Option Text
  pub index_source : Text

pub record SymbolFingerprint : Type 0 where
  pub signature : Option Text
  pub visibility : Option Text

pub data ChangeType : Type 0 where
  removed visibility_changed signature_changed added : ChangeType

pub record CrateApiDiffChange : Type 0 where
  pub name : Text
  pub kind : Text
  pub change_type : ChangeType
  pub from_signature : Option Text
  pub to_signature : Option Text
  pub from_visibility : Option Text
  pub to_visibility : Option Text
  pub breaking_change : Bool

-- The level and the reason of a `ConfidenceAssessment`, which its text words.
pub data ConfidenceAssessment : Type 0 where
  low_no_symbols : ConfidenceAssessment
  medium_signatures_missing : ℕ → ConfidenceAssessment
  high : ConfidenceAssessment

pub record ApiDiffSummary : Type 0 where
  pub added_count : ℕ
  pub removed_count : ℕ
  pub changed_count : ℕ
  pub breaking_changes_detected : Bool
  pub changes : List CrateApiDiffChange
  pub confidence_assessment : ConfidenceAssessment

-- `filter(|v| !v.is_empty())`.
abbrev nonempty : Text → Option Text
nonempty [] = none
nonempty (c ∷ s) = some (c ∷ s)

unfoldable pub normalize_signature : Option Text → Option Text
normalize_signature value = value >>= λ v. nonempty (trim v)

unfoldable pub normalize_visibility : Option Text → Option Text
normalize_visibility value = value >>= λ v. nonempty (to_lower (trim v))

abbrev pub Key : Type 0
Key = Text × Text

abbrev pub key_order : Ord Key
key_order = pair_ord text_ord text_ord

abbrev pub row_key : ApiDiffSymbolRow → Key
row_key row = (row.name, row.kind)

unfoldable pub symbol_row_priority : ApiDiffSymbolRow → ℕ
unfolding normalize_signature normalize_visibility text_eq
symbol_row_priority row =
    (if text_eq row.index_source (codes "rustdoc_json") then 4 else 0)
    + (if is_some (normalize_signature row.signature) then 2 else 0)
    + (if is_some (normalize_visibility row.visibility) then 1 else 0)

abbrev pub better : ℕ × ApiDiffSymbolRow → Option (ℕ × ApiDiffSymbolRow) → ℕ × ApiDiffSymbolRow
better new none = new
better new (some existing) = if leb new.0 existing.0 then existing else new

-- The loop that fills `best_by_key`.
unfoldable pub keep_best :
    List ApiDiffSymbolRow
    → List (Key × (ℕ × ApiDiffSymbolRow))
    → List (Key × (ℕ × ApiDiffSymbolRow))
keep_best [] best_by_key = best_by_key
keep_best (row ∷ rows) best_by_key =
    keep_best rows
      (alter key_order (row_key row) (better (symbol_row_priority row, row)) best_by_key)

unfoldable pub prioritize_symbol_rows : List ApiDiffSymbolRow → List ApiDiffSymbolRow
unfolding keep_best
prioritize_symbol_rows rows = map (λ e. e.1.1) (keep_best rows [])

abbrev pub fingerprint : ApiDiffSymbolRow → SymbolFingerprint
unfolding normalize_signature normalize_visibility
fingerprint row = record {
  signature = normalize_signature row.signature;
  visibility = normalize_visibility row.visibility;
}

abbrev pub SymbolMap : Type 0
SymbolMap = List (Key × SymbolFingerprint)

-- `out.entry(row_key(&row)).or_insert(…)` for each row.
unfoldable pub insert_fingerprints : List ApiDiffSymbolRow → SymbolMap → SymbolMap
insert_fingerprints [] out = out
insert_fingerprints (row ∷ rows) out =
    insert_fingerprints rows
      (alter key_order (row_key row) (λ o. unwrap_or (fingerprint row) o) out)

unfoldable pub map_symbols : List ApiDiffSymbolRow → SymbolMap
unfolding insert_fingerprints prioritize_symbol_rows
map_symbols rows = insert_fingerprints (prioritize_symbol_rows rows) []

abbrev pub change_sort_rank : ChangeType → ℕ
change_sort_rank removed = 0
change_sort_rank visibility_changed = 1
change_sort_rank signature_changed = 2
change_sort_rank added = 3

abbrev pub option_text_eq : Option Text → Option Text → Bool
unfolding text_eq
option_text_eq none none = true
option_text_eq none (some b) = false
option_text_eq (some a) none = false
option_text_eq (some a) (some b) = text_eq a b

-- The variables that the two loops fill.
pub record Tally : Type 0 where
  pub added_count : ℕ
  pub removed_count : ℕ
  pub changed_count : ℕ
  pub breaking_changes_detected : Bool
  pub changed_with_missing_signatures : ℕ
  pub changes : List CrateApiDiffChange

unfoldable pub removed_change : Key → SymbolFingerprint → CrateApiDiffChange
removed_change key from = record {
  name = key.0;
  kind = key.1;
  change_type = removed;
  from_signature = from.signature;
  to_signature = none;
  from_visibility = from.visibility;
  to_visibility = none;
  breaking_change = true;
}

unfoldable pub added_change : Key → SymbolFingerprint → CrateApiDiffChange
added_change key to = record {
  name = key.0;
  kind = key.1;
  change_type = added;
  from_signature = none;
  to_signature = to.signature;
  from_visibility = none;
  to_visibility = to.visibility;
  breaking_change = false;
}

abbrev pub visibility_differs : SymbolFingerprint → SymbolFingerprint → Bool
visibility_differs from to = not (option_text_eq from.visibility to.visibility)

abbrev pub signature_differs : SymbolFingerprint → SymbolFingerprint → Bool
signature_differs from to = not (option_text_eq from.signature to.signature)

abbrev pub downgraded_visibility : SymbolFingerprint → SymbolFingerprint → Bool
downgraded_visibility from to =
    option_text_eq from.visibility (some (codes "public"))
    && option_text_eq to.visibility (some (codes "private"))

unfoldable pub changed_change : Key → SymbolFingerprint → SymbolFingerprint → CrateApiDiffChange
changed_change key from to = record {
  name = key.0;
  kind = key.1;
  change_type = if visibility_differs from to then visibility_changed else signature_changed;
  from_signature = from.signature;
  to_signature = to.signature;
  from_visibility = from.visibility;
  to_visibility = to.visibility;
  breaking_change = downgraded_visibility from to || signature_differs from to;
}

abbrev pub misses_signature : SymbolFingerprint → SymbolFingerprint → Bool
misses_signature from to = not (is_some from.signature) || not (is_some to.signature)

-- One round of the first loop, told what the second version has under the key.
unfoldable pub compare_symbol : Key → SymbolFingerprint → Option SymbolFingerprint → Tally → Tally
unfolding removed_change changed_change
compare_symbol key from none t = record t {
  removed_count = t.removed_count + 1;
  breaking_changes_detected = true;
  changes = t.changes ++ (removed_change key from ∷ []);
}
compare_symbol key from (some to) t =
    let c = changed_change key from to in
    if not (visibility_differs from to || signature_differs from to) then t else record t {
      changed_count = t.changed_count + 1;
      changed_with_missing_signatures =
          if misses_signature from to
          then t.changed_with_missing_signatures + 1
          else t.changed_with_missing_signatures;
      breaking_changes_detected = if c.breaking_change then true else t.breaking_changes_detected;
      changes = t.changes ++ (c ∷ []);
    }

unfoldable pub from_loop : SymbolMap → SymbolMap → Tally → Tally
unfolding compare_symbol
from_loop [] to_map t = t
from_loop ((key, from) ∷ rest) to_map t =
    from_loop rest to_map (compare_symbol key from (get key_order key to_map) t)

-- One round of the second loop, told whether the first version has the key.
unfoldable pub add_symbol : Key → SymbolFingerprint → Bool → Tally → Tally
unfolding added_change
add_symbol key to true t = t
add_symbol key to false t = record t {
  added_count = t.added_count + 1;
  changes = t.changes ++ (added_change key to ∷ []);
}

unfoldable pub to_loop : SymbolMap → SymbolMap → Tally → Tally
unfolding add_symbol
to_loop [] from_map t = t
to_loop ((key, to) ∷ rest) from_map t =
    to_loop rest from_map (add_symbol key to (is_some (get key_order key from_map)) t)

abbrev pub change_order : Ord (ℕ × (Text × Text))
change_order = pair_ord nat_ord (pair_ord text_ord text_ord)

abbrev pub change_key : CrateApiDiffChange → ℕ × (Text × Text)
change_key c = (change_sort_rank c.change_type, (c.name, c.kind))

unfoldable pub sort_changes : List CrateApiDiffChange → List CrateApiDiffChange
sort_changes = sort_by change_order change_key

abbrev pub no_tally : Tally
no_tally = record {
  added_count = 0;
  removed_count = 0;
  changed_count = 0;
  breaking_changes_detected = false;
  changed_with_missing_signatures = 0;
  changes = [];
}

abbrev pub assess : Bool → ℕ → ConfidenceAssessment
assess no_symbols missing =
    if no_symbols
    then low_no_symbols
    else if ltb 0 missing
    then medium_signatures_missing missing
    else high

unfoldable pub tally_of : SymbolMap → SymbolMap → Tally
unfolding from_loop to_loop
tally_of from_map to_map = to_loop to_map from_map (from_loop from_map to_map no_tally)

unfoldable pub build_diff_summary : List ApiDiffSymbolRow → List ApiDiffSymbolRow → ApiDiffSummary
unfolding tally_of map_symbols sort_changes
build_diff_summary from_rows to_rows =
    let from_map = map_symbols from_rows in
    let to_map = map_symbols to_rows in
    let t = tally_of from_map to_map in
    record {
      added_count = t.added_count;
      removed_count = t.removed_count;
      changed_count = t.changed_count;
      breaking_changes_detected = t.breaking_changes_detected;
      changes = sort_changes t.changes;
      confidence_assessment =
          assess (is_empty from_map || is_empty to_map) t.changed_with_missing_signatures;
    }
