-- ===== src/Examples/Adapter.antt =====
-- The stdio adapter on concrete runs.
use rust_mcp.Prelude.{
  ℕ, ◌≤◌, ◌≡◌, refl, inr, true, List, [], ◌∷◌, Option, none, some, ok, err, ◌==◌, if◌then◌else◌,
  length,
}
use rust_mcp.Prelude.Options.{is_some}
use rust_mcp.Text.{Text, codes, is_whitespace}
use rust_mcp.Adapter.Protocol.{Base64}
use rust_mcp.Adapter.Upstream.{
  Request, Response, not_sent, Upstream, Endpoint, send, forward, ensure_session, prepare_upstream,
  method_is, exchange, note_initialize, is_success,
}
use rust_mcp.Adapter.Upstream.Requests.{IsLegacy}
use rust_mcp.Adapter.Upstream.Legacy.{forward_all, forward_initialize_all-IsLegacy}
use rust_mcp.Adapter.Upstream.Recovery.{forward_bound, forward-half_open}
use rust_mcp.Adapter.Relay.{main_loop, stdio_lines, relay_payload, jsonrpc_error}
use rust_mcp.Adapter.Relay.Answers.{AnswersAll, main_loop-AnswersAll, relay_payload-failed}
use rust_mcp.Adapter.Events.{parse_sse_json_events}
use rust_mcp.Adapter.Events.RoundTrip.{
  IsOneLine, IsEventText, event_stream, parse_sse_json_events-event_stream,
}
use rust_mcp.Examples.Values.{
  Value, str, obj, end, field, call, values, values-IsJson, get, as_str, find,
}

abbrev plain_base64 : Base64
plain_base64 = record { prefix = codes "=?base64?"; suffix = codes "?="; encode = λ s. s }

abbrev endpoint : (List (Request Value) → Option Response) → Endpoint Value
endpoint post = record {
  json = values;
  base64 = plain_base64;
  version = codes "0.1.0";
  post = post;
}

abbrev status_line : ℕ → Text
status_line status = codes "404 Not Found"

abbrev parse_failure : Text → Text
parse_failure line = codes "parse error"

-- A server that cannot be reached.
abbrev silent : Endpoint Value
silent = endpoint (λ requests. none)

abbrev opened : Response
opened = record {
  status = 200;
  session = some (codes "s1");
  content_type = some (codes "application/json");
  body = some [];
}

-- A server that has forgotten every session, and opens one for each first request.
abbrev forgetful : Endpoint Value
forgetful = endpoint λ requests.
    if length requests == 1
    then some opened
    else some (record { status = 404; session = none; content_type = none; body = some [] })

-- A server that is lost after the first request.
abbrev lost_later : Endpoint Value
lost_later = endpoint (λ requests. if length requests == 1 then some opened else none)

abbrev hello : Value
hello = obj (field (codes "method") (str (codes "initialize")) end)

abbrev fresh : Upstream Value
fresh = record { session_id = none; initialize = none; received = [] }

abbrev resumed : Upstream Value
resumed = record { session_id = none; initialize = some hello; received = [] }

abbrev lines : List Text
lines = codes " {1" ∷ codes "  " ∷ codes "oops" ∷ (34 ∷ codes "note") ∷ []

forward_initialize_all-IsLegacy_example :
    IsLegacy forgetful []
      (forward_all forgetful (hello ∷ call (codes "1") ∷ call (codes "2") ∷ []) fresh)
forward_initialize_all-IsLegacy_example =
    forward_initialize_all-IsLegacy forgetful fresh hello (call (codes "1") ∷ call (codes "2") ∷ [])
      (unfold method_is values get find as_str in refl)

forward_bound_example : length (forward forgetful (call (codes "1")) resumed).0.received ≤ 6
forward_bound_example = forward_bound forgetful (call (codes "1")) resumed

main_loop-AnswersAll_example :
    AnswersAll silent status_line parse_failure
      (stdio_lines lines)
      (main_loop silent status_line parse_failure lines)
main_loop-AnswersAll_example = main_loop-AnswersAll silent status_line parse_failure lines

str-IsEventText : (s : Text) → IsOneLine s → IsEventText values (str s)
unfolding values
str-IsEventText s h = record {
  reads = refl;
  one_line = (refl, h);
  starts = (34, s, refl, unfold is_whitespace in refl);
}

parse_sse_json_events-event_stream_example :
    parse_sse_json_events values (event_stream values (str (codes "a") ∷ str (codes "b") ∷ []))
    ≡ str (codes "a") ∷ str (codes "b") ∷ []
parse_sse_json_events-event_stream_example =
    parse_sse_json_events-event_stream values (str (codes "a") ∷ str (codes "b") ∷ [])
      (str-IsEventText (codes "a") (refl, tt), (str-IsEventText (codes "b") (refl, tt), tt))

relay_payload-failed_example :
    (text : Text) × ((relay_payload silent status_line parse_failure (call (codes "1")) fresh).1
      ≡ jsonrpc_error silent status_line parse_failure (str (codes "1")) 32000 text ∷ [])
    × (values.get
          (codes "id")
          (jsonrpc_error silent status_line parse_failure (str (codes "1")) 32000 text)
        ≡ some (str (codes "1")))
relay_payload-failed_example =
    relay_payload-failed silent status_line parse_failure values-IsJson (call (codes "1"))
      (str (codes "1")) fresh (unfold values in refl)
      (inr (
        not_sent,
        unfold forward ensure_session exchange values note_initialize send prepare_upstream in refl,
      ))

abbrev handshake_sent : Upstream Value
handshake_sent = (send lost_later hello none resumed).0

forward-half_open_example :
    ((forward lost_later (call (codes "1")) resumed).1 ≡ err not_sent)
    × (is_some (forward lost_later (call (codes "1")) resumed).0.session_id ≡ true)
    × (ensure_session lost_later
          (call (codes "2"))
          (forward lost_later (call (codes "1")) resumed).0
        ≡ ((forward lost_later (call (codes "1")) resumed).0, ok tt))
forward-half_open_example =
    forward-half_open lost_later (call (codes "1")) (call (codes "2")) hello resumed handshake_sent
      (record { status = 200; content_type = codes "application/json"; body = [] }) not_sent
      (unfold values method_is in refl) (unfold values method_is in refl) refl refl
      (unfold send in refl) (unfold is_success in refl) (unfold send in refl) (unfold send in refl)
