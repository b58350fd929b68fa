-- ===== src/Examples/Resolution.antt =====
-- A small index, and a resolution in it.
use rust_mcp.Prelude.{
  ◌≡◌, refl, ◌↔◌, true, false, ℕ, List, [], ◌∷◌, Option, some, none, In, ok, if◌then◌else◌, ◌==◌,
}
use rust_mcp.Text.{Text, codes, text_eq}
use rust_mcp.Order.{pair_lt}
use rust_mcp.Dependencies.Inputs.{
  InputDependency, NormalizedDependency, addition, cargo_toml, all_inputs, normalize_inputs,
  of_crate,
}
use rust_mcp.Dependencies.Inputs.Winner.{winner, normalize_inputs-winner}
use rust_mcp.Dependencies.Rows.{DependencyVersionRow, DependencyResolveResponse, high, Index}
use rust_mcp.Dependencies.Resolve.{parse_version, select_version}
use rust_mcp.Dependencies.Resolve.Newest.{IsNewest, select_version-IsNewest}
use rust_mcp.Examples.Instances.{triples, parse_at_least, parse_triple}

abbrev wanted : Text → Option Text → InputDependency
wanted name req = record { name = name; version_req = req }

abbrev manifest : List InputDependency
manifest = wanted (codes " Serde") (some (codes ">=1.0.0")) ∷ wanted (codes "tokio") none ∷ []

abbrev what_if : Option (List InputDependency)
what_if = some (wanted (codes "serde") (some (codes ">=1.2.0 ")) ∷ [])

abbrev serde_entry : NormalizedDependency
serde_entry = record {
  name = codes "serde";
  version_req = some (codes ">=1.2.0");
  source = addition;
}

normalize_inputs-winner_example :
    In serde_entry (normalize_inputs none manifest what_if)
    ↔ ((key : Text) × (winner (of_crate key (all_inputs none manifest what_if)) ≡ some serde_entry))
normalize_inputs-winner_example = normalize_inputs-winner none manifest what_if serde_entry

abbrev version_row : ℕ → Text → DependencyVersionRow
version_row id version = record { id = id; version = version; yanked = false }

abbrev serde_rows : List DependencyVersionRow
serde_rows =
    version_row 3 (codes "1.1.0")
    ∷ version_row 4 (codes "v1.10.0")
    ∷ version_row 5 (codes "1.9.0")
    ∷ version_row 6 (codes "next")
    ∷ []

select_version-IsNewest_example :
    IsNewest triples (1, (2, 0)) serde_rows (version_row 4 (codes "v1.10.0"))
select_version-IsNewest_example =
    select_version-IsNewest triples (codes "serde") (codes ">=1.2.0") serde_rows
      (version_row 4 (codes "v1.10.0")) (1, (2, 0)) (unfold parse_at_least parse_triple in refl)
      (unfold select_version parse_at_least parse_triple parse_version pair_lt in refl)

abbrev small_index : Index
small_index = record {
  fetch_dependency_crate_by_name = λ name.
      ok (some (record { id = if text_eq name (codes "serde") then 1 else 2; name = name }));
  list_dependency_versions_by_crate =
      λ id. ok (if id == 1 then serde_rows else version_row 9 (codes "2.0.0") ∷ []);
  list_dependency_resolve_edges_for_versions = λ ids. ok (
      record {
        to_crate_name = codes "serde";
        requirement = codes ">=1.5.0";
        optional = false;
        features = [];
      }
      ∷ []);
  list_dependency_versions_by_lower_name = λ name. ok [];
}

abbrev response : DependencyResolveResponse
response = record {
  input_dependencies =
      serde_entry ∷ record { name = codes "tokio"; version_req = none; source = cargo_toml } ∷ [];
  resolvable = true;
  resolved_versions =
      record { name = codes "serde"; version = codes "v1.10.0"; yanked = false }
      ∷ record { name = codes "tokio"; version = codes "2.0.0"; yanked = false }
      ∷ [];
  conflicts = [];
  check_features = false;
  feature_unification_summary = none;
  confidence_assessment = high;
}
