-- ===== src/Adapter/Upstream.antt =====
-- The adapter's connection to the server, crates/rust-mcp-stdio/src/main.rs: `Upstream`, `forward`,
-- `reestablish_session`, `send`, `into_messages` and `prepare_upstream`. The server is a function of
-- all the requests that it has received; JSON and Base64 are parameters; logging is left out.
pub mod Requests
pub mod Legacy
pub mod Recovery
pub mod Stateless
use rust_mcp.Prelude.{
  ℕ, ◌≡◌, Bool, true, false, not, ◌&&◌, ◌||◌, List, [], ◌∷◌, ◌++◌, Option, none, some, Result, ok,
  err, leb, ltb, ◌==◌, if◌then◌else◌, is_empty, unwrap_or,
}
use rust_mcp.Prelude.Options.{or_else, is_some}
use rust_mcp.Text.{Text, codes, text_eq, trim}
use rust_mcp.Text.Pieces.{contains}
use rust_mcp.Json.{Json}
use rust_mcp.Adapter.Protocol.{
  Header, content_type, accept, mcp_session_id, Base64, latest_mcp_protocol_version,
  request_meta_protocol_version, insert_stateless_request_meta, method_of,
  stateless_request_headers,
}
use rust_mcp.Adapter.Events.{parse_sse_json_events}

-- One POST to the endpoint.
pub record Request (V : Type 0) : Type 0 where
  pub headers : List Header
  pub payload : V

-- A response: its session header, and `none` for a body that cannot be read.
pub record Response : Type 0 where
  pub status : ℕ
  pub session : Option Text
  pub content_type : Option Text
  pub body : Option Text

pub record UpstreamReply : Type 0 where
  pub status : ℕ
  pub content_type : Text
  pub body : Text

pub data Failure : Type 0 where
  not_sent : Failure
  body_unreadable : Failure
  no_handshake : Failure
  not_reestablished : ℕ → Failure
  http_failure : ℕ → Text → Failure
  invalid_json : Text → Failure

-- The state of `Upstream`, with the requests that the server has received, the last first.
pub record Upstream (V : Type 0) : Type 0 where
  pub session_id : Option Text
  pub initialize : Option V
  pub received : List (Request V)

unfoldable pub is_success : ℕ → Bool
is_success status = leb 200 status && ltb status 300

-- An operation on the connection: it may fail, and what it changed before it fails stays.
abbrev pub Action : Type 0 → Type 0 → Type 0
Action V A = Upstream V → Upstream V × Result Failure A

abbrev pub and_then :
    {V A B : Type 0}
    → Upstream V × Result Failure A
    → (A → Action V B)
    → Upstream V × Result Failure B
and_then (u, ok a) f = f a u
and_then (u, err e) f = (u, err e)

infixl 5 ◌>>=◌ ◌>>◌
abbrev pub ◌>>=◌ : {V A B : Type 0} → Action V A → (A → Action V B) → Action V B
◌>>=◌ m f u = and_then (m u) f

abbrev pub ◌>>◌ : {V A B : Type 0} → Action V A → Action V B → Action V B
m >> k = m >>= λ _. k

-- What the connection is made of: JSON, Base64 and the server.
pub record Endpoint (V : Type 0) : Type 0 where
  pub json : Json V
  pub base64 : Base64
  pub version : Text
  pub post : List (Request V) → Option Response

abbrev pub adapter_client_name : Text
adapter_client_name = codes "rust-mcp-stdio"

module _ {V : Type 0} (e : Endpoint V) where
  common_headers : List Header
  common_headers =
      (content_type, codes "application/json")
      ∷ (accept, codes "application/json, text/event-stream")
      ∷ []

  session_headers : Option Text → List Header
  session_headers none = []
  session_headers (some session) = (mcp_session_id, session) ∷ []

  -- The headers of a request: those of the stateless version, if there is one, or the session.
  unfoldable pub request_headers : V → Option Text → Option Text → List Header
  unfolding common_headers session_headers stateless_request_headers
  request_headers payload none session = common_headers ++ session_headers session
  request_headers payload (some version) session =
      common_headers ++ stateless_request_headers e.json e.base64 payload version

  read_body : Response → Option Text → Action V UpstreamReply
  read_body response none u = (u, err body_unreadable)
  read_body response (some body) u = (
    u,
    ok (record {
      status = response.status;
      content_type = unwrap_or [] response.content_type;
      body = body;
    }),
  )

  -- A session in the response replaces the current one, also where its body cannot be read.
  accepted : Option Response → Action V UpstreamReply
  unfolding read_body
  accepted none u = (u, err not_sent)
  accepted (some response) u =
      read_body response response.body
        (record u { session_id = or_else response.session u.session_id })

  unfoldable pub send : V → Option Text → Action V UpstreamReply
  unfolding request_headers accepted
  send payload stateless_version u =
      let request : Request V = record {
        headers = request_headers payload stateless_version u.session_id;
        payload = payload;
      } in
      let received = request ∷ u.received in
      accepted (e.post received) (record u { received = received })

  failure_messages : UpstreamReply → Option V → Result Failure (List V)
  failure_messages reply none = err (http_failure reply.status reply.body)
  failure_messages reply (some value) = ok (value ∷ [])

  parsed_body : Text → Option V → Result Failure (List V)
  parsed_body body none = err (invalid_json body)
  parsed_body body (some value) = ok (value ∷ [])

  unfoldable pub into_messages : UpstreamReply → Result Failure (List V)
  unfolding failure_messages parsed_body is_success trim contains parse_sse_json_events
  into_messages reply =
      if not (is_success reply.status)
      then failure_messages reply (e.json.from_str reply.body)
      else if is_empty (trim reply.body)
      then ok []
      else if contains (codes "text/event-stream") reply.content_type
      then ok (parse_sse_json_events e.json reply.body)
      else parsed_body reply.body (e.json.from_str reply.body)

  unfoldable pub method_is : Text → V → Bool
  unfolding method_of text_eq
  method_is name payload = elim (method_of e.json payload) [
    | none ↦ false
    | some method ↦ text_eq method name
  ]

  abbrev pub is_initialize : V → Bool
  is_initialize payload = method_is (codes "initialize") payload

  with_meta : V → V
  unfolding insert_stateless_request_meta method_of request_meta_protocol_version
  with_meta payload =
      if is_some (method_of e.json payload)
        && is_some (e.json.get (codes "id") payload)
        && not (is_some (request_meta_protocol_version e.json payload))
      then insert_stateless_request_meta e.json adapter_client_name e.version payload
      else payload

  unfoldable pub prepare_upstream : V → Bool → V × Option Text
  unfolding with_meta request_meta_protocol_version method_is
  prepare_upstream payload legacy =
      let prepared = with_meta payload in
      if legacy
        || method_is (codes "initialize") payload
        || method_is (codes "notifications/initialized") payload
      then (payload, none)
      else (
        prepared,
        some
            (unwrap_or latest_mcp_protocol_version (request_meta_protocol_version e.json prepared)),
      )

  unfoldable pub initialized : V
  initialized = e.json.object (
      (codes "jsonrpc", e.json.string (codes "2.0"))
      ∷ (codes "method", e.json.string (codes "notifications/initialized"))
      ∷ (codes "params", e.json.object [])
      ∷ [])

  session_check : UpstreamReply → Action V (Unit {0})
  unfolding is_success
  session_check reply u =
      if not (is_success reply.status) || not (is_some u.session_id)
      then (u, err (not_reestablished reply.status))
      else (u, ok tt)

  replay : Option V → Action V (Unit {0})
  unfolding send session_check initialized
  replay none u = (u, err no_handshake)
  replay (some initialize) u =
      and_then (send initialize none u)
        λ reply. do session_check reply; sent ← send initialized none; λ u. (u, ok tt)

  unfoldable pub reestablish_session : Action V (Unit {0})
  unfolding replay
  reestablish_session u = replay u.initialize (record u { session_id = none })

  -- A client that says `initialize` starts afresh.
  unfoldable pub note_initialize : V → Upstream V → Upstream V
  unfolding method_is
  note_initialize payload u =
      if is_initialize payload then record u { session_id = none; initialize = some payload } else u

  -- Before a legacy request without a session, the handshake is replayed.
  unfoldable pub ensure_session : V → Action V (Unit {0})
  unfolding reestablish_session method_is
  ensure_session payload u =
      if is_some u.initialize && (not (is_initialize payload) && not (is_some u.session_id))
      then reestablish_session u
      else (u, ok tt)

  messages : UpstreamReply → Action V (List V)
  unfolding into_messages
  messages reply u = (u, into_messages reply)

  -- After a reply of 404 within a session, the handshake is replayed and the message sent again.
  unfoldable pub conclude : V → Bool → UpstreamReply → Action V (List V)
  unfolding reestablish_session messages send
  conclude payload had_session reply =
      if had_session && reply.status == 404
      then (do reestablish_session; again ← send payload none; messages again)
      else messages reply

  unfoldable pub exchange : V → Action V (List V)
  unfolding prepare_upstream send conclude
  exchange payload u =
      let (upstream_payload, stateless_version) = prepare_upstream payload (is_some u.initialize) in
      and_then (send upstream_payload stateless_version u) (conclude payload (is_some u.session_id))

  unfoldable pub forward : V → Action V (List V)
  forward payload u =
      and_then (ensure_session payload (note_initialize payload u)) (λ _. exchange payload)
