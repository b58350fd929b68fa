-- ===== src/Dependencies/Resolve.antt =====
-- `handle_dependency_resolve`: a version for each input, and the conflicts between them. The four
-- queries are the parameter `Index`; an error or a message is told by its kind, with the
-- text that it carries.
pub mod Newest
pub mod Selected
pub mod Satisfied
use rust_mcp.Prelude.{
  ℕ, ◌+◌, Bool, true, false, not, ◌&&◌, ◌||◌, List, [], ◌∷◌, ◌++◌, map, Option, none, some, ltb,
  if◌then◌else◌, is_empty, length, take, any, all, unwrap_or, Result, ok, err, ◌>>=◌, ok_or,
}
use rust_mcp.Prelude.Options.{or_else, mapped, is_some}
use rust_mcp.Order.{text_ord}
use rust_mcp.BTree.{get, insert, alter}
use rust_mcp.Text.{Text, to_lower}
use rust_mcp.Limits.{dependency_resolve_limit}
use rust_mcp.Semver.{Semver}
use rust_mcp.Dependencies.Rows.{
  Confidence, ConflictMessage, DependencyCrateRow, DependencyResolveConflict,
  DependencyResolveEdgeRow, DependencyResolveFeatureSummary, DependencyResolveResolvedVersion,
  DependencyResolveResponse, DependencyVersionRow, Index, ResolveError, SelectedDependency,
  crate_lookup_failed, edge_lookup_failed, high, invalid_requirement, low_none_resolved,
  medium_conflicts, medium_unindexed, no_satisfying_version, none_satisfies_all, not_indexed,
  nothing_given, transitive_lookup_failed, transitive_unsatisfied, version_lookup_failed,
}
use rust_mcp.Dependencies.Inputs.{InputDependency, NormalizedDependency, normalize_inputs}

-- `map_err`.
abbrev pub failing {ℓ} :
    {A : Type ℓ} → (Text → ResolveError) → Result Text A → Result ResolveError A
failing f (ok a) = ok a
failing f (err e) = err (f e)

-- `trim_start_matches('v')`.
unfoldable pub without_vs : Text → Text
without_vs [] = []
without_vs (c ∷ s) = let rest = without_vs s in if ltb c b'v' || ltb b'v' c then c ∷ s else rest

unfoldable pub evaluate_confidence : ℕ → ℕ → ℕ → Confidence
evaluate_confidence selected_count conflict_count unindexed_count =
    if ltb 0 selected_count
    then (if ltb 0 unindexed_count
        then medium_unindexed unindexed_count
        else if ltb 0 conflict_count
        then medium_conflicts conflict_count
        else high)
    else low_none_resolved

-- What the loop over the inputs fills.
pub record Selection : Type 0 where
  pub conflicts : List DependencyResolveConflict
  pub selected : List SelectedDependency
  pub unindexed_count : ℕ

-- What the loop over the edges fills.
pub record Edges : Type 0 where
  pub conflicts : List DependencyResolveConflict
  pub optional_targets : List (Text × Unit {0})
  pub feature_names : List (Text × Unit {0})
  pub target_requirements : List (Text × List Text)

abbrev pub head {ℓ} : {A : Type ℓ} → List A → Option A
head [] = none
head (x ∷ xs) = some x

abbrev pub conflict : Text → Option Text → ConflictMessage → DependencyResolveConflict
conflict name requirement message = record {
  dependency_name = name;
  requirement = requirement;
  message = message;
}

abbrev pub resolved : SelectedDependency → DependencyResolveResolvedVersion
resolved s = record { name = s.crate_name; version = s.version; yanked = s.yanked }

abbrev pub pushed_requirement : Text → Option (List Text) → List Text
pushed_requirement requirement group = unwrap_or [] group ++ (requirement ∷ [])

unfoldable pub insert_names : List Text → List (Text × Unit {0}) → List (Text × Unit {0})
insert_names [] set = set
insert_names (name ∷ rest) set = insert_names rest (insert text_ord name tt set)

unfoldable pub selected_by_crate :
    List SelectedDependency → List (Text × SelectedDependency) → List (Text × SelectedDependency)
selected_by_crate [] m = m
selected_by_crate (s ∷ rest) m =
    selected_by_crate rest (insert text_ord (to_lower s.crate_name) s m)

module _ (σ : Semver) where
  open σ use {Version, parse, order, Requirement, parse_requirement, matches}

  unfoldable pub parse_version : Text → Option Version
  unfolding without_vs
  parse_version version = or_else (parse version) (parse (without_vs version))

  -- `max_by`: of two that are equal the later one is kept.
  abbrev pub later_max :
      Option (Version × DependencyVersionRow)
      → Version × DependencyVersionRow
      → Version × DependencyVersionRow
  later_max none new = new
  later_max (some old) new = if order.lt new.0 old.0 then old else new

  abbrev pub if_admitted :
      Requirement → DependencyVersionRow → Option Version → Option (Version × DependencyVersionRow)
  if_admitted requirement row none = none
  if_admitted requirement row (some version) =
      if matches requirement version then some (version, row) else none

  -- A row that the requirement admits, with its version.
  unfoldable pub admitted :
      Requirement → DependencyVersionRow → Option (Version × DependencyVersionRow)
  admitted requirement row = if_admitted requirement row (parse_version row.version)

  abbrev pub consider :
      Option (Version × DependencyVersionRow)
      → Option (Version × DependencyVersionRow)
      → Option (Version × DependencyVersionRow)
  consider none best = best
  consider (some new) best = some (later_max best new)

  unfoldable pub newest :
      Requirement
      → List DependencyVersionRow
      → Option (Version × DependencyVersionRow)
      → Option (Version × DependencyVersionRow)
  unfolding admitted
  newest requirement [] best = best
  newest requirement (row ∷ rows) best =
      newest requirement rows (consider (admitted requirement row) best)

  -- With no requirement the first row of the query is taken.
  unfoldable pub select_version :
      Text
      → Option Text
      → List DependencyVersionRow
      → Result ResolveError (Option DependencyVersionRow)
  unfolding newest
  select_version name none versions = ok (head versions)
  select_version name (some version_req) versions = do
    requirement ← ok_or (invalid_requirement name) (parse_requirement version_req)
    ok (mapped (λ e. e.1) (newest requirement versions none))

  module _ (index : Index) where
    abbrev pub add_selected :
        NormalizedDependency
        → DependencyCrateRow
        → Option DependencyVersionRow
        → Selection
        → Selection
    add_selected dependency crate_row none s = record s {
      conflicts =
          s.conflicts
          ++ (conflict dependency.name dependency.version_req no_satisfying_version ∷ []);
    }
    add_selected dependency crate_row (some row) s = record s {
      selected =
          s.selected
          ++ (record {
            crate_name = crate_row.name;
            version_id = row.id;
            version = row.version;
            yanked = row.yanked;
          }
              ∷ []);
    }

    -- One round of the loop over the inputs, told what the crate lookup found.
    unfoldable pub select_in :
        NormalizedDependency → Option DependencyCrateRow → Selection → Result ResolveError Selection
    unfolding select_version
    select_in dependency none s = ok (record s {
      unindexed_count = s.unindexed_count + 1;
      conflicts = s.conflicts ++ (conflict dependency.name dependency.version_req not_indexed ∷ []);
    })
    select_in dependency (some crate_row) s = do
      versions ←
          failing version_lookup_failed (index.list_dependency_versions_by_crate crate_row.id)
      row ← select_version dependency.name dependency.version_req versions
      ok (add_selected dependency crate_row row s)

    unfoldable pub select_each :
        List NormalizedDependency → Selection → Result ResolveError Selection
    unfolding select_in
    select_each [] s = ok s
    select_each (dependency ∷ rest) s = do
      crate_row ← failing crate_lookup_failed (index.fetch_dependency_crate_by_name dependency.name)
      s' ← select_in dependency crate_row s
      select_each rest s'

    abbrev pub mismatch :
        DependencyResolveEdgeRow
        → SelectedDependency
        → Option Version
        → Option Requirement
        → List DependencyResolveConflict
    mismatch edge target (some version) (some requirement) =
        if matches requirement version
        then []
        else conflict edge.to_crate_name (some edge.requirement)
            (transitive_unsatisfied target.version edge.requirement)
          ∷ []
    mismatch edge target none _ = []
    mismatch edge target (some version) none = []

    -- The conflict of an edge with the version that was selected for its target.
    unfoldable pub edge_conflict :
        DependencyResolveEdgeRow → Option SelectedDependency → List DependencyResolveConflict
    edge_conflict edge none = []
    edge_conflict edge (some target) =
        mismatch edge target (parse_version target.version) (parse_requirement edge.requirement)

    unfoldable pub each_edge :
        List (Text × SelectedDependency) → List DependencyResolveEdgeRow → Edges → Edges
    unfolding edge_conflict insert_names
    each_edge by_crate [] e = e
    each_edge by_crate (edge ∷ rest) e =
        let key = to_lower edge.to_crate_name in
        each_edge by_crate rest (record {
          conflicts = e.conflicts ++ edge_conflict edge (get text_ord key by_crate);
          optional_targets =
              if edge.optional
              then insert text_ord edge.to_crate_name tt e.optional_targets
              else e.optional_targets;
          feature_names = insert_names edge.features e.feature_names;
          target_requirements =
              alter text_ord key (pushed_requirement edge.requirement) e.target_requirements;
        })

    unfoldable pub parse_all : List Text → List Requirement
    parse_all [] = []
    parse_all (text ∷ rest) = elim (parse_requirement text) [
      | none ↦ parse_all rest
      | some requirement ↦ requirement ∷ parse_all rest
    ]

    unfoldable pub satisfies_all : List Requirement → DependencyVersionRow → Bool
    unfolding parse_version
    satisfies_all requirements row = elim (parse_version row.version) [
      | none ↦ false
      | some version ↦ all (λ requirement. matches requirement version) requirements
    ]

    -- The loop over the targets; the source goes through them in no certain order.
    unfoldable pub each_target :
        List (Text × List Text)
        → List DependencyResolveConflict
        → Result ResolveError (List DependencyResolveConflict)
    unfolding parse_all satisfies_all
    each_target [] conflicts = ok conflicts
    each_target ((target, requirements) ∷ rest) conflicts =
        let parsed = parse_all requirements in
        if ltb (length requirements) 2 || ltb (length parsed) 2
        then each_target rest conflicts
        else (do
          candidates ←
              failing transitive_lookup_failed (index.list_dependency_versions_by_lower_name target)
          each_target rest (
              if any (satisfies_all parsed) candidates
              then conflicts
              else conflicts ++ (conflict target none none_satisfies_all ∷ [])))

    abbrev pub no_edges : List DependencyResolveConflict → Edges
    no_edges conflicts = record {
      conflicts = conflicts;
      optional_targets = [];
      feature_names = [];
      target_requirements = [];
    }

    unfoldable pub respond :
        List NormalizedDependency
        → Bool
        → Selection
        → ℕ
        → Edges
        → List DependencyResolveConflict
        → DependencyResolveResponse
    unfolding evaluate_confidence
    respond requested check_features s edge_count e conflicts = record {
      input_dependencies = requested;
      resolvable = is_empty conflicts;
      resolved_versions = map resolved s.selected;
      conflicts = conflicts;
      check_features = check_features;
      feature_unification_summary =
          if check_features
          then some (record {
            dependency_edges_evaluated = edge_count;
            unique_optional_dependencies = length e.optional_targets;
            unique_feature_flags_referenced = length e.feature_names;
          })
          else none;
      confidence_assessment =
          evaluate_confidence (length s.selected) (length conflicts) s.unindexed_count;
    }

    -- What follows the loop over the inputs.
    unfoldable pub with_edges :
        List NormalizedDependency → Bool → Selection → Result ResolveError DependencyResolveResponse
    unfolding each_edge each_target selected_by_crate respond
    with_edges requested check_features s =
        if is_empty s.selected
        then ok (respond requested check_features s 0 (no_edges s.conflicts) s.conflicts)
        else (do
          edges ← failing edge_lookup_failed (
              index.list_dependency_resolve_edges_for_versions
                (map (λ (x : SelectedDependency). x.version_id) s.selected))
          let e = each_edge (selected_by_crate s.selected []) edges (no_edges s.conflicts)
          conflicts ← each_target e.target_requirements e.conflicts
          ok (respond requested check_features s (length edges) e conflicts))

    -- The whole handler, told what the manifest declares.
    unfoldable pub handle_dependency_resolve :
        Option (List InputDependency)
        → List InputDependency
        → Option (List InputDependency)
        → Option ℕ
        → Option Bool
        → Result ResolveError DependencyResolveResponse
    unfolding select_each with_edges dependency_resolve_limit normalize_inputs
    handle_dependency_resolve dependencies manifest_dependencies additions limit check_features =
        let requested = normalize_inputs dependencies manifest_dependencies additions in
        if is_empty requested then err nothing_given else (do
          let kept = take (dependency_resolve_limit limit) requested
          s ← select_each kept (record { conflicts = []; selected = []; unindexed_count = 0 })
          with_edges kept (unwrap_or false check_features) s)
