-- ===== src/Features.antt =====
-- Feature flags, crates/rust-mcp/src/mcp/tools/krate/features.rs: what a feature enables, directly and
-- through other features. A hash map is a list with the entries that came later in front; a hash set is
-- a list. The loop over the queue has fuel, which `Closure` shows to be enough.
pub mod Closure
use rust_mcp.Prelude.{
  ℕ, zero, suc, ◌+◌, Bool, true, false, not, List, [], ◌∷◌, ◌++◌, map, Option, none, some,
  if◌then◌else◌, any, length, select, is_empty, unwrap_or,
}
use rust_mcp.Prelude.Options.{mapped}
use rust_mcp.Order.{text_ord}
use rust_mcp.Order.Sort.{sort_by, dedup}
use rust_mcp.Text.{Text, codes, trim, text_eq}
use rust_mcp.Text.Pieces.{strip_prefix}

-- Where a trimmed value goes: to the features, or behind `dep:` to the dependencies.
abbrev dependency_targets : Option Text → List Text → List Text
dependency_targets none rest = rest
dependency_targets (some dep) rest =
    let name = trim dep in if is_empty name then rest else name ∷ rest

abbrev feature_targets : Text → Option Text → List Text → List Text
feature_targets value none rest = value ∷ rest
feature_targets value (some dep) rest = rest

features_in : List Text → List Text
unfolding trim strip_prefix
features_in [] = []
features_in (value ∷ values) =
    let trimmed = trim value in
    let rest = features_in values in
    if is_empty trimmed
    then rest
    else feature_targets trimmed (strip_prefix (codes "dep:") trimmed) rest

dependencies_in : List Text → List Text
unfolding trim strip_prefix
dependencies_in [] = []
dependencies_in (value ∷ values) =
    let trimmed = trim value in
    let rest = dependencies_in values in
    if is_empty trimmed then rest else dependency_targets (strip_prefix (codes "dep:") trimmed) rest

abbrev pub sorted_set : List Text → List Text
sorted_set names = dedup text_ord (sort_by text_ord (λ name. name) names)

unfoldable pub split_enable_targets : List Text → List Text × List Text
unfolding features_in dependencies_in
split_enable_targets values = (sorted_set (features_in values), sorted_set (dependencies_in values))

abbrev pub FeatureGraph : Type 0
FeatureGraph = List (Text × List Text)

-- `HashMap::get`.
unfoldable pub get : FeatureGraph → Text → Option (List Text)
unfolding text_eq
get [] name = none
get ((key, targets) ∷ graph) name = if text_eq key name then some targets else get graph name

-- `HashSet::contains`.
abbrev pub has : List Text → Text → Bool
has seen name = any (text_eq name) seen

-- The children that are not yet seen go to the end of the queue.
abbrev pub unseen_children : List Text → Option (List Text) → List Text
unseen_children seen none = []
unseen_children seen (some children) = select (λ child. not (has seen child)) children

-- The queue and the set of what was seen; `none` when the fuel is used up.
unfoldable pub drain : FeatureGraph → ℕ → List Text → List Text → Option (List Text)
drain graph fuel [] seen = some seen
drain graph zero (feature ∷ queue) seen = none
drain graph (suc fuel) (feature ∷ queue) seen =
    let old = drain graph fuel queue seen in
    let new =
      drain graph fuel (queue ++ unseen_children (feature ∷ seen) (get graph feature))
        (feature ∷ seen) in
    if has seen feature then old else new

-- How many targets the graph lists.
abbrev pub targets_listed : FeatureGraph → ℕ
targets_listed [] = 0
targets_listed ((key, targets) ∷ graph) = length targets + targets_listed graph

unfoldable pub transitive_feature_enables : Text → FeatureGraph → Option (List Text)
unfolding drain get
transitive_feature_enables root graph =
    let queue = unwrap_or [] (get graph root) in
    mapped (sort_by text_ord (λ name. name))
      (drain graph (length queue + targets_listed graph) queue [])

-- A row of the features of a version, its `enables` as `value_to_string_vec` reads them.
pub record FeatureImpactFeatureRow : Type 0 where
  pub feature_name : Text
  pub enables : List Text

pub record CrateFeatureFlag : Type 0 where
  pub name : Text
  pub is_default : Bool
  pub enables_features : List Text
  pub enables_dependencies : List Text
  pub transitive_enables : Option (List Text)

abbrev pub feature_graph_from : List FeatureImpactFeatureRow → FeatureGraph → FeatureGraph
unfolding split_enable_targets
feature_graph_from [] graph = graph
feature_graph_from (row ∷ rows) graph =
    feature_graph_from rows ((row.feature_name, (split_enable_targets row.enables).0) ∷ graph)

abbrev pub dependency_enables_from : List FeatureImpactFeatureRow → FeatureGraph → FeatureGraph
unfolding split_enable_targets
dependency_enables_from [] graph = graph
dependency_enables_from (row ∷ rows) graph =
    dependency_enables_from rows ((row.feature_name, (split_enable_targets row.enables).1) ∷ graph)

-- The flags that the tool `crate_features` answers with.
unfoldable pub feature_flags : List FeatureImpactFeatureRow → List CrateFeatureFlag
unfolding get transitive_feature_enables
feature_flags rows =
    let graph = feature_graph_from rows [] in
    let dependencies = dependency_enables_from rows [] in
    let default_features = unwrap_or [] (get graph (codes "default")) in
    map
      (λ row. record {
        name = row.feature_name;
        is_default = has default_features row.feature_name;
        enables_features = unwrap_or [] (get graph row.feature_name);
        enables_dependencies = unwrap_or [] (get dependencies row.feature_name);
        transitive_enables = transitive_feature_enables row.feature_name graph;
      })
      rows
