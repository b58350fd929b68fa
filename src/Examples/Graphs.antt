-- ===== src/Examples/Graphs.antt =====
-- Cycles and feature closures on concrete inputs.
use rust_mcp.Prelude.{◌≡◌, ◌↔◌, Bool, true, false, List, [], ◌∷◌, none, some, In}
use rust_mcp.Order.{text_ord}
use rust_mcp.Order.Sort.{IsSorted}
use rust_mcp.Text.{Text, codes}
use rust_mcp.Graph.Walks.{Walk}
use rust_mcp.Graph.Cycles.{CrateGraphEdge, detect_cycle_presence}
use rust_mcp.Graph.Cycles.Correct.{Trail, detect_cycle_presence-decides}
use rust_mcp.Features.{FeatureGraph, transitive_feature_enables}
use rust_mcp.Features.Closure.{enabled, transitive_feature_enables-reach}

abbrev link : Text → Text → CrateGraphEdge
link from to = record {
  from_crate = from;
  from_version = none;
  to_crate = to;
  to_version = none;
  requirement = codes "*";
  dependency_kind = codes "normal";
  optional = false;
  depth = 1;
}

abbrev triangle : List CrateGraphEdge
triangle =
    link (codes "a") (codes "b") ∷ link (codes "b") (codes "c") ∷ link (codes "c") (codes "a") ∷ []

detect_cycle_presence-decides_example :
    (b : Bool) × (detect_cycle_presence triangle ≡ some b)
    × ((b ≡ true) ↔ ((a : Text) × Trail triangle a a))
detect_cycle_presence-decides_example = detect_cycle_presence-decides triangle

abbrev flags : FeatureGraph
flags =
    (codes "default", codes "std" ∷ codes "derive" ∷ [])
    ∷ (codes "std", codes "alloc" ∷ [])
    ∷ (codes "alloc", codes "std" ∷ [])
    ∷ []

transitive_feature_enables-reach_example :
    (out : List Text) × (transitive_feature_enables (codes "default") flags ≡ some out)
    × IsSorted text_ord (λ name. name) out
    × ((name : Text) → In name out ↔ Walk (enabled flags) (codes "default") name)
transitive_feature_enables-reach_example = transitive_feature_enables-reach (codes "default") flags
