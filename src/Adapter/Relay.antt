-- ===== src/Adapter/Relay.antt =====
-- The adapter's main loop, crates/rust-mcp-stdio/src/main.rs: `main`, `read_stdio_line` and the
-- JSON-RPC errors that it makes up. The input is its lines, the output the messages that are written;
-- a failure of the input or the output ends the process and is left out.
pub mod Answers
use rust_mcp.Prelude.{
  ℕ, ◌≡◌, Bool, true, false, not, ◌&&◌, List, [], ◌∷◌, ◌++◌, Option, none, some, Result, ok, err,
  if◌then◌else◌, is_empty, unwrap_or, select,
}
use rust_mcp.Prelude.Options.{is_some}
use rust_mcp.Text.{Text, codes, trim}
use rust_mcp.Json.{Json}
use rust_mcp.Adapter.Upstream.{
  Failure, not_sent, body_unreadable, no_handshake, not_reestablished, http_failure, invalid_json,
  Upstream, Endpoint, forward,
}

-- How `anyhow` shows a failure: the outermost message. `status_line` is how a status is shown.
unfoldable pub failure_text : (ℕ → Text) → Failure → Text
failure_text status_line not_sent = codes "failed to send upstream MCP HTTP request"
failure_text status_line body_unreadable = codes "failed to read upstream MCP response body"
failure_text status_line no_handshake = codes "no legacy `initialize` handshake to replay"
failure_text status_line (not_reestablished status) =
    codes "upstream MCP session expired and could not be re-established (HTTP "
    ++ (status_line status ++ codes "); retry the request")
failure_text status_line (http_failure status body) =
    codes "upstream MCP request returned HTTP "
    ++ (status_line status ++ (codes " with body: " ++ body))
failure_text status_line (invalid_json body) = codes "upstream returned invalid JSON: " ++ body

-- The lines that are messages: `read_stdio_line` trims a line and skips a blank one.
abbrev kept_line : Text → List Text → List Text
kept_line line rest = if is_empty line then rest else line ∷ rest

unfoldable pub stdio_lines : List Text → List Text
unfolding trim
stdio_lines [] = []
stdio_lines (line ∷ rest) = kept_line (trim line) (stdio_lines rest)

module _ {V : Type 0} (e : Endpoint V) (status_line : ℕ → Text) (parse_failure : Text → Text) where
  unfoldable pub jsonrpc_error : V → ℕ → Text → V
  jsonrpc_error id code text = e.json.object (
      (codes "jsonrpc", e.json.string (codes "2.0"))
      ∷ (codes "id", id)
      ∷ (
        codes "error",
        e.json.object
            ((codes "code", e.json.minus code) ∷ (codes "message", e.json.string text) ∷ []),
      )
      ∷ [])

  unfoldable pub jsonrpc_error_for_payload : V → ℕ → Text → V
  unfolding jsonrpc_error
  jsonrpc_error_for_payload payload code text =
      jsonrpc_error (unwrap_or e.json.null (e.json.get (codes "id") payload)) code text

  unfoldable pub has_id : V → Bool
  has_id value = is_some (e.json.get (codes "id") value)

  -- A failure becomes an error for the message.
  unfoldable pub upstream_messages : V → Result Failure (List V) → List V
  unfolding jsonrpc_error_for_payload failure_text
  upstream_messages payload (ok values) = values
  upstream_messages payload (err failure) =
      jsonrpc_error_for_payload payload 32000
        (codes "stdio proxy upstream call failed: " ++ failure_text status_line failure)
      ∷ []

  -- A request that got nothing gets an error.
  unfoldable pub answered : V → List V → List V
  unfolding has_id jsonrpc_error_for_payload
  answered payload values =
      if is_empty values && has_id payload
      then jsonrpc_error_for_payload payload 32000
          (codes "stdio proxy upstream returned no JSON-RPC payload")
        ∷ []
      else values

  -- To a notification only messages with an id are written.
  unfoldable pub passed_on : V → List V → List V
  unfolding has_id
  passed_on payload values =
      select (λ value. not (not (has_id value) && not (has_id payload))) values

  unfoldable pub relay_payload : V → Upstream V → Upstream V × List V
  relay_payload payload u =
      let (v, reply) = forward e payload u in
      (v, passed_on payload (answered payload (upstream_messages payload reply)))

  -- One line of the input: what is written, and the connection after it.
  unfoldable pub relay_line : Text → Option V → Upstream V → Upstream V × List V
  unfolding jsonrpc_error
  relay_line line none u = (u, jsonrpc_error e.json.null 32700 (parse_failure line) ∷ [])
  relay_line line (some payload) u = relay_payload payload u

  -- What is written for each line.
  unfoldable pub relay_lines : List Text → Upstream V → List (List V)
  relay_lines [] u = []
  relay_lines (line ∷ rest) u =
      let (v, values) = relay_line line (e.json.from_str line) u in values ∷ relay_lines rest v

  unfoldable pub new_upstream : Upstream V
  new_upstream = record { session_id = none; initialize = none; received = [] }

  unfoldable pub main_loop : List Text → List (List V)
  main_loop input = relay_lines (stdio_lines input) new_upstream
