-- ===== src/Dependencies/Rows.antt =====
-- The rows, requests and answers of `dependency_resolve`: crates/rust-mcp/src/db/models.rs and
-- crates/rust-mcp-types/src/types.rs, and the queries of crates/rust-mcp/src/db/tools.rs as a
-- parameter.
use rust_mcp.Prelude.{ℕ, Bool, List, Option, Result}
use rust_mcp.Text.{Text}
use rust_mcp.Dependencies.Inputs.{NormalizedDependency}

pub record DependencyCrateRow : Type 0 where
  pub id : ℕ
  pub name : Text

pub record DependencyVersionRow : Type 0 where
  pub id : ℕ
  pub version : Text
  pub yanked : Bool

-- `features` holds the strings of the JSON array.
pub record DependencyResolveEdgeRow : Type 0 where
  pub to_crate_name : Text
  pub requirement : Text
  pub optional : Bool
  pub features : List Text

pub record SelectedDependency : Type 0 where
  pub crate_name : Text
  pub version_id : ℕ
  pub version : Text
  pub yanked : Bool

pub data ConflictMessage : Type 0 where
  not_indexed no_satisfying_version none_satisfies_all : ConflictMessage
  transitive_unsatisfied : Text → Text → ConflictMessage

pub record DependencyResolveConflict : Type 0 where
  pub dependency_name : Text
  pub requirement : Option Text
  pub message : ConflictMessage

pub record DependencyResolveResolvedVersion : Type 0 where
  pub name : Text
  pub version : Text
  pub yanked : Bool

pub record DependencyResolveFeatureSummary : Type 0 where
  pub dependency_edges_evaluated : ℕ
  pub unique_optional_dependencies : ℕ
  pub unique_feature_flags_referenced : ℕ

pub data Confidence : Type 0 where
  low_none_resolved high : Confidence
  medium_unindexed medium_conflicts : ℕ → Confidence

pub record DependencyResolveResponse : Type 0 where
  pub input_dependencies : List NormalizedDependency
  pub resolvable : Bool
  pub resolved_versions : List DependencyResolveResolvedVersion
  pub conflicts : List DependencyResolveConflict
  pub check_features : Bool
  pub feature_unification_summary : Option DependencyResolveFeatureSummary
  pub confidence_assessment : Confidence

pub data ResolveError : Type 0 where
  nothing_given : ResolveError
  crate_lookup_failed version_lookup_failed invalid_requirement : Text → ResolveError
  edge_lookup_failed transitive_lookup_failed : Text → ResolveError

-- The queries of the index; a failure carries the database's message.
pub record Index : Type 0 where
  pub fetch_dependency_crate_by_name : Text → Result Text (Option DependencyCrateRow)
  pub list_dependency_versions_by_crate : ℕ → Result Text (List DependencyVersionRow)
  pub list_dependency_resolve_edges_for_versions :
      List ℕ → Result Text (List DependencyResolveEdgeRow)
  pub list_dependency_versions_by_lower_name : Text → Result Text (List DependencyVersionRow)
