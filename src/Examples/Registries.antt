-- ===== src/Examples/Registries.antt =====
-- Registry directories on concrete inputs.
use rust_mcp.Prelude.{
  ◌≡◌, ◌↔◌, refl, Bool, true, false, ◌&&◌, ◌==◌, leb, List, [], ◌∷◌, ◌++◌, any, Option, none, some,
  arith,
}
use rust_mcp.Text.{Text, codes, text_eq}
use rust_mcp.Discovery.{foreign, parse_registry_dir_name}
use rust_mcp.Discovery.Splits.{IsSplit, parse_registry_dir_name-IsSplit}
use rust_mcp.Discovery.Scan.{
  CrateEntry, RegistryEntry, DiscoveryScan, collect_crate_versions_from_registry,
  collect_local_versions_for_crate,
}
use rust_mcp.Discovery.Scan.Agree.{collect_crate_versions_from_registry-versions}

-- Versions that begin with one digit and a dot.
abbrev numbered : Text → Bool
numbered [] = false
numbered (d ∷ []) = false
numbered (d ∷ c ∷ s) = leb 48 d && leb d 57 && c == 46

numbered_first : (a b : Text) → numbered (a ++ (45 ∷ b)) ≡ true → any foreign a ≡ true
numbered_first [] [] h = absurd (ground arith)
numbered_first [] (c ∷ b) h = absurd (ground arith)
numbered_first (d ∷ []) b h = absurd (ground arith)
numbered_first (d ∷ c ∷ a) b h = ground arith

parse_registry_dir_name-IsSplit_example :
    (parse_registry_dir_name numbered (codes "serde-json-1.0.0-rc-1")
      ≡ some (codes "serde-json", codes "1.0.0-rc-1"))
    ↔ IsSplit numbered (codes "serde-json-1.0.0-rc-1") (codes "serde-json") (codes "1.0.0-rc-1")
parse_registry_dir_name-IsSplit_example =
    parse_registry_dir_name-IsSplit numbered numbered_first refl (codes "serde-json-1.0.0-rc-1")
      (codes "serde-json") (codes "1.0.0-rc-1")

abbrev crate_dir : Text → Option CrateEntry
crate_dir name = some (record { is_dir = true; dir_name = some name })

abbrev registries : List (Option RegistryEntry)
registries =
    some (record {
      is_dir = true;
      crate_dirs = some (
          crate_dir (codes "serde-1.0")
          ∷ none
          ∷ crate_dir (codes "notes")
          ∷ crate_dir (codes "serde-json-1.1")
          ∷ []);
    })
    ∷ none
    ∷ some (record { is_dir = true; crate_dirs = none })
    ∷ some (record { is_dir = true; crate_dirs = some (crate_dir (codes "serde-2.0") ∷ []) })
    ∷ []

abbrev no_scan : DiscoveryScan
no_scan = record { discovered = 0; unparseable = 0; versions = λ name. [] }

local_serde :
    collect_local_versions_for_crate numbered (codes "serde") (some registries)
    ≡ codes "1.0" ∷ codes "2.0" ∷ []
unfolding collect_local_versions_for_crate text_eq
local_serde = refl

collect_crate_versions_from_registry-versions_example :
    (s : DiscoveryScan) × (collect_crate_versions_from_registry numbered (some registries) no_scan
      ≡ some s)
    × (s.versions (codes "serde")
        ≡ collect_local_versions_for_crate numbered (codes "serde") (some registries))
collect_crate_versions_from_registry-versions_example =
    collect_crate_versions_from_registry-versions numbered (codes "serde") registries no_scan
