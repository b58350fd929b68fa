-- ===== src/Graph/Cycles/Correct.antt =====
-- `detect_cycle_presence` decides whether the edges have a cycle.
use rust_mcp.Prelude.{
  suc, ◌≡◌, ◌↔◌, refl, inl, inr, Bool, true, false, List, [], ◌∷◌, In, arith, length, some, All,
  All-In,
}
use rust_mcp.Text.{Text}
use rust_mcp.Graph.Cycles.{
  CrateGraphEdge, add_edges, neighbors, keys, white, black, Colors, Outcome, cycle, clear,
  out_of_fuel, found_cycle, nodes_of, detect_cycle_presence,
}
use rust_mcp.Graph.Walks.{Walk, step, more}
use rust_mcp.Graph.Cycles.Colors.{whites}
use rust_mcp.Graph.Cycles.Edges.{
  HasEdge, add_edges-HasEdge, HasEdge-add_edges, In-keys, keys-add_edges, HasEdge-nodes_of,
}
use rust_mcp.Graph.Cycles.Promises.{Promises}
use rust_mcp.Graph.Cycles.Visit.{visit_keys-Promises}

-- A path of at least one edge.
pub data Trail (edges : List CrateGraphEdge) (a : Text) : Text → Type 0 where
  first : {b : Text} → HasEdge edges a b → Trail edges a b
  onward : {b c : Text} → Trail edges a b → HasEdge edges b c → Trail edges a c

no_key : (n : Text) → ¬ In n (keys [])
unfolding keys
no_key n i = elim i [ ]

module _ (edges : List CrateGraphEdge) where
  abbrev next : Text → List Text
  next = neighbors (add_edges edges [])

  neighbors-HasEdge : (a b : Text) → In b (next a) → HasEdge edges a b
  unfolding neighbors
  neighbors-HasEdge a b i = elim (add_edges-HasEdge edges [] a b i) [
    | inl none_yet ↦ elim none_yet [ ]
    | inr edge ↦ edge
  ]

  Walk-Trail : {a b : Text} → Walk next a b → Trail edges a b
  Walk-Trail {a} {b} (step i) = first (neighbors-HasEdge a b i)
  Walk-Trail {a} {b} (more {b = m} w i) = onward (Walk-Trail w) (neighbors-HasEdge m b i)

  Trail-Walk : {a b : Text} → Trail edges a b → Walk next a b
  Trail-Walk {a} {b} (first h) = step (HasEdge-add_edges edges [] a b (inr h))
  Trail-Walk {a} {b} (onward {b = m} t h) =
      more (Trail-Walk t) (HasEdge-add_edges edges [] m b (inr h))

  Walk-key : {a b : Text} → Walk next a b → In a (keys (add_edges edges []))
  Walk-key {a} {b} (step i) = In-keys (add_edges edges []) a b i
  Walk-key (more w i) = Walk-key w

  blank : Colors
  blank node = white

  whites-blank : (ns : List Text) → whites ns blank ≡ length ns
  unfolding blank
  whites-blank [] = refl
  whites-blank (n ∷ ns) = omega (arith, whites-blank ns)

  found_cycle-decides :
      (o : Outcome)
      → Promises next blank (λ d. All (λ n. d n ≡ black) (keys (add_edges edges []))) o
      → (b : Bool) × (found_cycle o ≡ some b) × ((b ≡ true) ↔ ((a : Text) × Trail edges a a))
  found_cycle-decides cycle (a, w) = (true, refl, (λ _. (a, Walk-Trail w), λ _. refl))
  found_cycle-decides (clear d) (settled, x, all) = (
    false,
    refl,
    (
      λ h. cc,
      λ (a, t).
          let w = Trail-Walk t in
          absurd (settled.acyclic a (All-In (λ n. d n ≡ black) _ all (Walk-key w)) w),
    ),
  )
  found_cycle-decides out_of_fuel h = absurd h

-- The search always answers, and it answers that there is a cycle exactly when some crate is reached
-- from itself along one or more of the edges.
pub detect_cycle_presence-decides :
    (edges : List CrateGraphEdge)
    → (b : Bool) × (detect_cycle_presence edges ≡ some b)
      × ((b ≡ true) ↔ ((a : Text) × Trail edges a a))
unfolding detect_cycle_presence blank
detect_cycle_presence-decides edges = found_cycle-decides edges _ (
    visit_keys-Promises (next edges) (nodes_of edges)
      (λ n m i. HasEdge-nodes_of edges n m (neighbors-HasEdge edges n m i))
      (suc (length (nodes_of edges))) (keys (add_edges edges [])) (blank edges)
      (λ n i. elim (keys-add_edges edges [] n i) [
        | inl none_yet ↦ absurd (no_key n none_yet)
        | inr known ↦ known
      ])
      (record { closed = λ n m h i. cc; acyclic = λ n h w. cc }) (λ n h. cc)
      (omega (arith, whites-blank edges (nodes_of edges))))
