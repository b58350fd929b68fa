-- ===== src/Dependencies/Resolve/Satisfied.antt =====
-- What a resolution without conflicts promises.
use rust_mcp.Prelude.{◌≡◌, true, List, [], map, some, All, ok}
use rust_mcp.Text.{Text, to_lower}
use rust_mcp.Order.{text_ord}
use rust_mcp.BTree.{get}
use rust_mcp.Semver.{Semver}
use rust_mcp.Dependencies.Rows.{
  SelectedDependency, DependencyResolveResponse, Index, DependencyResolveEdgeRow,
}
use rust_mcp.Dependencies.Resolve.{resolved, parse_version, selected_by_crate}
use rust_mcp.Dependencies.Resolve.Selected.{IsMet}

module _ (σ : Semver) where
  open σ use {Version, Requirement, parse_requirement, matches}

  module _ (index : Index) where
    -- The version that was selected for an edge's target, where it can be read, is admitted by the
    -- edge's requirement, where that can be read.
    abbrev pub EdgeHolds : List SelectedDependency → DependencyResolveEdgeRow → Type 0
    EdgeHolds selected edge =
        (x : SelectedDependency) (version : Version) (requirement : Requirement)
        → get text_ord (to_lower edge.to_crate_name) (selected_by_crate selected []) ≡ some x
        → parse_version σ x.version ≡ some version
        → parse_requirement edge.requirement ≡ some requirement
        → matches requirement version ≡ true

    -- A response, and the selection behind its resolved versions.
    pub record IsResolution (r : DependencyResolveResponse) : Type 0 where
      pub selected : List SelectedDependency
      pub listed : r.resolved_versions ≡ map resolved selected
      pub met : All (IsMet σ selected) r.input_dependencies
      pub consistent :
          (edges : List DependencyResolveEdgeRow)
          → index.list_dependency_resolve_edges_for_versions
              (map (λ (x : SelectedDependency). x.version_id) selected)
            ≡ ok edges
          → All (EdgeHolds selected) edges
