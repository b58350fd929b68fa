-- ===== src/ApiDiff/Symbols.antt =====
-- Which row stands for a symbol.
use rust_mcp.Prelude.{ℕ, ◌≡◌, ◌&&◌, Bool, List, [], ◌∷◌, Option, none, some, if◌then◌else◌, All}
use rust_mcp.Text.{text_eq}
use rust_mcp.ApiDiff.{
  ApiDiffSymbolRow, SymbolFingerprint, Key, row_key, symbol_row_priority, better, fingerprint,
}

-- The rows in their order, each against the best so far: a later row wins only with a higher
-- priority.
abbrev pub best_of :
    List ApiDiffSymbolRow → Option (ℕ × ApiDiffSymbolRow) → Option (ℕ × ApiDiffSymbolRow)
best_of [] best = best
best_of (row ∷ rows) best = best_of rows (some (better (symbol_row_priority row, row) best))

abbrev pub has_key : Key → ApiDiffSymbolRow → Bool
has_key key row = text_eq row.name key.0 && text_eq row.kind key.1

abbrev Best : Type 0
Best = List (Key × (ℕ × ApiDiffSymbolRow))

-- The map's rows stand under their own keys.
abbrev IsKeyed : Best → Type 0
IsKeyed m = All (λ e. row_key e.1.1 ≡ e.0) m

-- The fingerprint of the first row under a key.
abbrev first_at : Key → List ApiDiffSymbolRow → Option SymbolFingerprint
first_at key [] = none
first_at key (row ∷ rows) = if has_key key row then some (fingerprint row) else first_at key rows
