-- ===== src/Examples/Names.antt =====
-- Lists of names as callers give them.
use rust_mcp.Prelude.{◌≡◌, ◌↔◌, false, List, [], ◌∷◌, In, is_empty}
use rust_mcp.Text.{Text, codes, trim}
use rust_mcp.Fields.{dedupe_strings}
use rust_mcp.Fields.Dedupe.{IsAscending, dedupe_strings_lem}

abbrev names : List Text
names = codes " tokio" ∷ codes "serde" ∷ codes "  " ∷ codes "tokio " ∷ []

dedupe_strings_lem_example :
    ((x : Text)
      → In x (dedupe_strings names)
        ↔ ((v : Text) × In v names × (x ≡ trim v) × (is_empty x ≡ false)))
    × IsAscending (dedupe_strings names)
dedupe_strings_lem_example = dedupe_strings_lem names
