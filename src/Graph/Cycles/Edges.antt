-- ===== src/Graph/Cycles/Edges.antt =====
-- The adjacency that is built of a list of edges.
use rust_mcp.Prelude.{
  ◌≡◌, refl, sym, ap, subst, ◌∙◌, ◌⊎◌, inl, inr, true, List, [], ◌∷◌, In, here, there, arith,
  if◌then◌else◌, Bool-cases, any,
}
use rust_mcp.Text.{Text, text_eq, text_eq-eq, eq-text_eq, text_eq_refl, text_eq_iff}
use rust_mcp.Graph.Cycles.{
  CrateGraphEdge, Adjacency, insert_node, add_edge, add_edges, neighbors, keys, nodes_of,
}

-- An edge of the list leads from `a` to `b`.
abbrev pub HasEdge : List CrateGraphEdge → Text → Text → Type 0
HasEdge edges a b =
    (edge : CrateGraphEdge) × In edge edges × (edge.from_crate ≡ a) × (edge.to_crate ≡ b)

any-In : (node : Text) (nodes : List Text) → any (text_eq node) nodes ≡ true → In node nodes
any-In node [] h = cc
any-In node (n ∷ nodes) h = elim (Bool-cases (text_eq node n)) [
  | inl same ↦ here (text_eq-eq node n same)
  | inr other ↦ there (any-In node nodes (rw other at h))
]

In-head : (node : Text) (nodes : List Text) (b : Text) → In b (node ∷ nodes) → In b nodes ⊎ b ≡ node
In-head node nodes b (here e) = inr e
In-head node nodes b (there i) = inl i

-- The neighbours after an insertion.
insert_node-In :
    (node : Text) (nodes : List Text) (b : Text)
    → In b (insert_node node nodes)
    → In b nodes ⊎ b ≡ node
unfolding insert_node
insert_node-In node nodes b h = elim (Bool-cases (any (text_eq node) nodes)) [
  | inl old ↦ inl (rw old at h)
  | inr new ↦ In-head node nodes b (rw new at h)
]

In-insert_node :
    (node : Text) (nodes : List Text) (b : Text) → In b nodes → In b (insert_node node nodes)
unfolding insert_node
In-insert_node node nodes b i = elim (Bool-cases (any (text_eq node) nodes)) [
  | inl old ↦ rw old i
  | inr new ↦ rw new (there i)
]

In-insert_node_self : (node : Text) (nodes : List Text) → In node (insert_node node nodes)
unfolding insert_node
In-insert_node_self node nodes = elim (Bool-cases (any (text_eq node) nodes)) [
  | inl old ↦ rw old (any-In node nodes old)
  | inr new ↦ rw new (here refl)
]

-- The neighbours of `a` once the edge from `from` to `to` is added.
neighbors-add_edge :
    (from to : Text) (graph : Adjacency) (a : Text)
    → neighbors (add_edge from to graph) a
      ≡ (if text_eq from a then insert_node to (neighbors graph from) else neighbors graph a)
unfolding neighbors add_edge insert_node
neighbors-add_edge from to [] a = refl
neighbors-add_edge from to ((key, nodes) ∷ rest) a = ground (
  arith,
  neighbors-add_edge from to rest a,
  text_eq_iff key from,
  text_eq_iff key a,
  text_eq_iff from a,
  text_eq_refl from,
)

deeper :
    {keys later : List Text} {from : Text} (a key : Text)
    → (In a later → In a keys ⊎ a ≡ from)
    → In a (key ∷ later)
    → In a (key ∷ keys) ⊎ a ≡ from
deeper a key f (here e) = inl (here e)
deeper a key f (there i) = elim (f i) [ inl old ↦ inl (there old) | inr new ↦ inr new ]

added_edge :
    (e : CrateGraphEdge) (edges : List CrateGraphEdge) (graph : Adjacency) (a b : Text)
    → In b (neighbors (add_edge e.from_crate e.to_crate graph) a)
    → In b (neighbors graph a) ⊎ HasEdge (e ∷ edges) a b
added_edge e edges graph a b h =
    let now : In b (
        if text_eq e.from_crate a
        then insert_node e.to_crate (neighbors graph e.from_crate)
        else neighbors graph a) =
      subst (In b) (neighbors-add_edge e.from_crate e.to_crate graph a) h in
    elim (Bool-cases (text_eq e.from_crate a)) [
      | inr other ↦ inl (rw other at now)
      | inl same ↦
          let at = text_eq-eq e.from_crate a same in
          elim (insert_node-In e.to_crate (neighbors graph e.from_crate) b (rw same at now)) [
            | inl old ↦ inl (subst (λ t. In b (neighbors graph t)) at old)
            | inr new ↦ inr (e, here refl, at, sym new)
          ]
    ]

kept_edge :
    (e : CrateGraphEdge) (graph : Adjacency) (a b : Text)
    → In b (neighbors graph a)
    → In b (neighbors (add_edge e.from_crate e.to_crate graph) a)
kept_edge e graph a b h =
    subst (In b) (sym (neighbors-add_edge e.from_crate e.to_crate graph a))
      (elim (Bool-cases (text_eq e.from_crate a)) [
        | inr other ↦ rw other h
        | inl same ↦ rw same (
            In-insert_node e.to_crate (neighbors graph e.from_crate) b
              (subst (λ t. In b (neighbors graph t)) (sym (text_eq-eq e.from_crate a same)) h))
      ])

new_edge :
    (e : CrateGraphEdge) (graph : Adjacency) (a b : Text)
    → e.from_crate ≡ a
    → e.to_crate ≡ b
    → In b (neighbors (add_edge e.from_crate e.to_crate graph) a)
new_edge e graph a b from to =
    subst (In b) (sym (neighbors-add_edge e.from_crate e.to_crate graph a)) (
      rw (eq-text_eq e.from_crate a from) (
        subst (λ t. In t (insert_node e.to_crate (neighbors graph e.from_crate))) to
          (In-insert_node_self e.to_crate (neighbors graph e.from_crate))))

keys-add_edge :
    (from to : Text) (graph : Adjacency) (a : Text)
    → In a (keys (add_edge from to graph))
    → In a (keys graph) ⊎ a ≡ from
unfolding keys add_edge
keys-add_edge from to [] a h = In-head from [] a h
keys-add_edge from to ((key, nodes) ∷ rest) a h = elim (Bool-cases (text_eq key from)) [
  | inl same ↦ inl (rw same at h)
  | inr other ↦ deeper a key (keys-add_edge from to rest a) (rw other at h)
]

-- The neighbours in the adjacency of the edges are the targets of the edges.
pub add_edges-HasEdge :
    (edges : List CrateGraphEdge) (graph : Adjacency) (a b : Text)
    → In b (neighbors (add_edges edges graph) a)
    → In b (neighbors graph a) ⊎ HasEdge edges a b
unfolding add_edges
add_edges-HasEdge [] graph a b h = inl h
add_edges-HasEdge (e ∷ edges) graph a b h =
    elim (add_edges-HasEdge edges (add_edge e.from_crate e.to_crate graph) a b h) [
      | inr (edge, i, from, to) ↦ inr (edge, there i, from, to)
      | inl now ↦ added_edge e edges graph a b now
    ]

pub HasEdge-add_edges :
    (edges : List CrateGraphEdge) (graph : Adjacency) (a b : Text)
    → In b (neighbors graph a) ⊎ HasEdge edges a b
    → In b (neighbors (add_edges edges graph) a)
unfolding add_edges
HasEdge-add_edges [] graph a b (inl h) = h
HasEdge-add_edges [] graph a b (inr (edge, i, from, to)) = elim i [ ]
HasEdge-add_edges (e ∷ edges) graph a b (inl h) =
    HasEdge-add_edges edges (add_edge e.from_crate e.to_crate graph) a b
      (inl (kept_edge e graph a b h))
HasEdge-add_edges (e ∷ edges) graph a b (inr (edge, there i, from, to)) =
    HasEdge-add_edges edges (add_edge e.from_crate e.to_crate graph) a b (inr (edge, i, from, to))
HasEdge-add_edges (e ∷ edges) graph a b (inr (edge, here same, from, to)) =
    HasEdge-add_edges edges (add_edge e.from_crate e.to_crate graph) a b (
      inl (
        new_edge e graph a b (sym (ap (λ (x : CrateGraphEdge). x.from_crate) same) ∙ from)
          (sym (ap (λ (x : CrateGraphEdge). x.to_crate) same) ∙ to)))

pub In-keys : (graph : Adjacency) (a b : Text) → In b (neighbors graph a) → In a (keys graph)
unfolding neighbors keys
In-keys [] a b h = elim h [ ]
In-keys ((key, nodes) ∷ rest) a b h = elim (Bool-cases (text_eq key a)) [
  | inl same ↦ here (sym (text_eq-eq key a same))
  | inr other ↦ there (In-keys rest a b (rw other at h))
]

pub keys-add_edges :
    (edges : List CrateGraphEdge) (graph : Adjacency) (a : Text)
    → In a (keys (add_edges edges graph))
    → In a (keys graph) ⊎ In a (nodes_of edges)
unfolding add_edges
keys-add_edges [] graph a h = inl h
keys-add_edges (e ∷ edges) graph a h =
    elim (keys-add_edges edges (add_edge e.from_crate e.to_crate graph) a h) [
      | inr later ↦ inr (there (there later))
      | inl now ↦ elim (keys-add_edge e.from_crate e.to_crate graph a now) [
        | inl old ↦ inl old
        | inr new ↦ inr (here new)
      ]
    ]

pub HasEdge-nodes_of :
    (edges : List CrateGraphEdge) (a b : Text) → HasEdge edges a b → In b (nodes_of edges)
HasEdge-nodes_of [] a b (edge, i, from, to) = elim i [ ]
HasEdge-nodes_of (e ∷ edges) a b (edge, here same, from, to) =
    there (here (sym to ∙ ap (λ (x : CrateGraphEdge). x.to_crate) same))
HasEdge-nodes_of (e ∷ edges) a b (edge, there i, from, to) =
    there (there (HasEdge-nodes_of edges a b (edge, i, from, to)))
