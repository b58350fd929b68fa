-- ===== src/Adapter/Events.antt =====
-- `parse_sse_json_events` of crates/rust-mcp-stdio/src/main.rs: the JSON values of a server-sent event
-- stream.
pub mod RoundTrip
use rust_mcp.Prelude.{
  ℕ, Bool, true, false, List, [], ◌∷◌, ◌++◌, Option, none, some, if◌then◌else◌, is_empty,
}
use rust_mcp.Text.{Text, codes, trim, trim_start}
use rust_mcp.Text.Pieces.{split, strip_prefix, join}
use rust_mcp.Text.Lines.{lines}
use rust_mcp.Json.{Json}

-- What a line adds to the data lines of its event.
data_line : Option Text → List Text
unfolding trim_start
data_line none = []
data_line (some value) = trim_start value ∷ []

unfoldable pub data_lines : List Text → List Text
unfolding data_line strip_prefix
data_lines [] = []
data_lines (line ∷ rest) = data_line (strip_prefix (codes "data:") line) ++ data_lines rest

module _ {V : Type 0} (json : Json V) where
  -- A payload that is not JSON is dropped.
  parsed : Option V → List V
  parsed none = []
  parsed (some value) = value ∷ []

  unfoldable pub event_values : List Text → List V
  unfolding parsed trim join
  event_values [] = []
  event_values (line ∷ rest) =
      let joined = join (10 ∷ []) (line ∷ rest) in
      if is_empty (trim joined) then [] else parsed (json.from_str joined)

  unfoldable pub values_of_events : List Text → List V
  unfolding event_values data_lines lines
  values_of_events [] = []
  values_of_events (event ∷ events) =
      event_values (data_lines (lines event)) ++ values_of_events events

  unfoldable pub parse_sse_json_events : Text → List V
  unfolding values_of_events split
  parse_sse_json_events body = values_of_events (split (10 ∷ 10 ∷ []) body)
