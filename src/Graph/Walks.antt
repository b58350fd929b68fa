-- ===== src/Graph/Walks.antt =====
-- Walks along the lists of neighbours of a graph.
use rust_mcp.Prelude.{List, In}
use rust_mcp.Text.{Text}

-- A walk of at least one step.
pub data Walk (next : Text → List Text) (a : Text) : Text → Type 0 where
  step : {b : Text} → In b (next a) → Walk next a b
  more : {b c : Text} → Walk next a b → In c (next b) → Walk next a c

pub Walk-append :
    {next : Text → List Text} {a b c : Text} → Walk next a b → Walk next b c → Walk next a c
Walk-append w (step m) = more w m
Walk-append w (more v m) = more (Walk-append w v) m
