-- ===== src/Graph/Cycles.antt =====
-- `detect_cycle_presence` and `cycle_safe_traversal_notes` of
-- crates/rust-mcp/src/mcp/tools/krate/graph.rs: a depth-first search with three colours. A hash map or
-- set is a list in the order in which its keys came; nothing that is proved depends on that order. The
-- recursion has fuel, which `Correct` shows to be enough.
pub mod Colors
pub mod Edges
pub mod Promises
pub mod Visit
pub mod Correct
use rust_mcp.Prelude.{
  ℕ, zero, suc, Bool, true, false, List, [], ◌∷◌, ◌++◌, map, Option, none, some, if◌then◌else◌, any,
  length,
}
use rust_mcp.Prelude.Options.{mapped}
use rust_mcp.Text.{Text, codes, text_eq}

pub record CrateGraphEdge : Type 0 where
  pub from_crate : Text
  pub from_version : Option Text
  pub to_crate : Text
  pub to_version : Option Text
  pub requirement : Text
  pub dependency_kind : Text
  pub optional : Bool
  pub depth : ℕ

abbrev pub Adjacency : Type 0
Adjacency = List (Text × List Text)

-- `HashSet::insert`.
unfoldable pub insert_node : Text → List Text → List Text
unfolding text_eq
insert_node node nodes = if any (text_eq node) nodes then nodes else node ∷ nodes

-- `adjacency.entry(from).or_default().insert(to)`.
unfoldable pub add_edge : Text → Text → Adjacency → Adjacency
unfolding insert_node text_eq
add_edge from to [] = (from, to ∷ []) ∷ []
add_edge from to ((node, nodes) ∷ rest) =
    if text_eq node from
    then (node, insert_node to nodes) ∷ rest
    else (node, nodes) ∷ add_edge from to rest

unfoldable pub add_edges : List CrateGraphEdge → Adjacency → Adjacency
unfolding add_edge
add_edges [] graph = graph
add_edges (edge ∷ edges) graph = add_edges edges (add_edge edge.from_crate edge.to_crate graph)

-- `adjacency.get(node)`, with no neighbours for a node that is no key.
unfoldable pub neighbors : Adjacency → Text → List Text
unfolding text_eq
neighbors [] node = []
neighbors ((key, nodes) ∷ rest) node = if text_eq key node then nodes else neighbors rest node

unfoldable pub keys : Adjacency → List Text
keys [] = []
keys ((key, nodes) ∷ rest) = key ∷ keys rest

pub data Color : Type 0 where
  white : Color
  gray : Color
  black : Color

-- The map of colours, white where it has no entry.
abbrev pub Colors : Type 0
Colors = Text → Color

abbrev pub painted : Text → Color → Colors → Colors
painted node color colors other = if text_eq node other then color else colors other

-- A visit meets a cycle, or ends with these colours, or has no fuel left.
pub data Outcome : Type 0 where
  cycle : Outcome
  clear : Colors → Outcome
  out_of_fuel : Outcome

abbrev pub proceed : Outcome → (Colors → Outcome) → Outcome
proceed cycle next = cycle
proceed (clear colors) next = next colors
proceed out_of_fuel next = out_of_fuel

-- One neighbour, by its colour, and then the rest.
unfoldable pub meet : Color → Outcome → Colors → (Colors → Outcome) → Outcome
meet gray visited colors next = cycle
meet black visited colors next = next colors
meet white visited colors next = proceed visited next

unfoldable pub visit_each : (Text → Colors → Outcome) → List Text → Colors → Outcome
visit_each visit [] colors = clear colors
visit_each visit (node ∷ nodes) colors =
    meet (colors node) (visit node colors) colors (λ later. visit_each visit nodes later)

abbrev pub finish_node : Text → Outcome → Outcome
finish_node node outcome = proceed outcome (λ colors. clear (painted node black colors))

unfoldable pub visit : (Text → List Text) → ℕ → Text → Colors → Outcome
visit next zero node colors = out_of_fuel
visit next (suc fuel) node colors =
    finish_node node (visit_each (visit next fuel) (next node) (painted node gray colors))

-- The outer loop visits the keys that are still white.
unfoldable pub start_at : Color → Outcome → Colors → (Colors → Outcome) → Outcome
start_at white visited colors next = proceed visited next
start_at gray visited colors next = next colors
start_at black visited colors next = next colors

unfoldable pub visit_keys : (Text → Colors → Outcome) → List Text → Colors → Outcome
visit_keys visit [] colors = clear colors
visit_keys visit (node ∷ nodes) colors =
    start_at (colors node) (visit node colors) colors (λ later. visit_keys visit nodes later)

abbrev pub found_cycle : Outcome → Option Bool
found_cycle cycle = some true
found_cycle (clear colors) = some false
found_cycle out_of_fuel = none

-- The crates that edges name.
abbrev pub nodes_of : List CrateGraphEdge → List Text
nodes_of [] = []
nodes_of (edge ∷ edges) = edge.from_crate ∷ edge.to_crate ∷ nodes_of edges

unfoldable pub detect_cycle_presence : List CrateGraphEdge → Option Bool
detect_cycle_presence edges =
    let graph = add_edges edges [] in
    found_cycle (
      visit_keys (visit (neighbors graph) (suc (length (nodes_of edges)))) (keys graph)
        (λ node. white))

abbrev self_note : Bool → List Text
self_note true = codes "Self-referential edges detected in result set." ∷ []
self_note false = []

abbrev cycle_note : Bool → Text
cycle_note true =
    codes "Cycle detected in returned graph; traversal remained bounded and avoided infinite loops."
cycle_note false = codes "No directed cycles detected in returned graph slice."

-- `display` is how a number is shown.
unfoldable pub cycle_safe_traversal_notes :
    (ℕ → Text) → List CrateGraphEdge → ℕ → Option (List Text)
unfolding detect_cycle_presence text_eq
cycle_safe_traversal_notes display edges depth =
    mapped
      (λ has_cycle.
        codes "Traversal is cycle-safe: edges are deduplicated and traversal depth is bounded."
        ∷ (codes "Traversal depth cap applied: " ++ display depth)
        ∷ (self_note (any (λ edge. text_eq edge.from_crate edge.to_crate) edges)
            ++ (cycle_note has_cycle ∷ [])))
      (detect_cycle_presence edges)
