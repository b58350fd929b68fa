-- ===== src/Examples/Diff.antt =====
-- The diff of two small versions.
use rust_mcp.Prelude.{◌≡◌, ◌↔◌, List, [], ◌∷◌, Option, some, none, In}
use rust_mcp.Text.{Text, codes}
use rust_mcp.ApiDiff.{
  ApiDiffSymbolRow, CrateApiDiffChange, Key, fingerprint, removed_change, build_diff_summary,
}
use rust_mcp.ApiDiff.Changes.{change_for, symbol_at, build_diff_summary_changes}
use rust_mcp.ApiDiff.Counts.{IsConsistent, build_diff_summary-IsConsistent}

abbrev symbol : Text → Option Text → Text → ApiDiffSymbolRow
symbol name signature source = record {
  name = name;
  kind = codes "fn";
  signature = signature;
  visibility = some (codes " Public ");
  index_source = source;
}

abbrev old_rows : List ApiDiffSymbolRow
old_rows =
    symbol (codes "parse") none (codes "docs")
    ∷ symbol (codes "parse") (some (codes "fn parse()")) (codes "rustdoc_json")
    ∷ symbol (codes "print") (some (codes "fn print()")) (codes "docs")
    ∷ []

abbrev new_rows : List ApiDiffSymbolRow
new_rows = symbol (codes "parse") (some (codes "fn parse(s)")) (codes "rustdoc_json") ∷ []

abbrev print_removed : CrateApiDiffChange
print_removed =
    removed_change (codes "print", codes "fn")
      (fingerprint (symbol (codes "print") (some (codes "fn print()")) (codes "docs")))

build_diff_summary_changes_example :
    In print_removed (build_diff_summary old_rows new_rows).changes ↔ (
      (key : Key) × (change_for key (symbol_at key old_rows) (symbol_at key new_rows)
        ≡ some print_removed))
build_diff_summary_changes_example = build_diff_summary_changes old_rows new_rows print_removed

build_diff_summary-IsConsistent_example : IsConsistent (build_diff_summary old_rows new_rows)
build_diff_summary-IsConsistent_example = build_diff_summary-IsConsistent old_rows new_rows
