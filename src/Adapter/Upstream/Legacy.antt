-- ===== src/Adapter/Upstream/Legacy.antt =====
-- A client that has said `initialize` stays on the legacy protocol, within a session.
use rust_mcp.Prelude.{
  ◌≡◌, refl, ap, inl, inr, Bool, true, false, ◌&&◌, List, [], ◌∷◌, none, some, Result, ok, err,
  ◌==◌, Bool-cases,
}
use rust_mcp.Prelude.Options.{is_some}
use rust_mcp.Adapter.Upstream.{
  Request, UpstreamReply, Failure, Upstream, Endpoint, and_then, request_headers, send,
  is_initialize, prepare_upstream, reestablish_session, note_initialize, ensure_session, conclude,
  exchange, forward, messages,
}
use rust_mcp.Adapter.Upstream.Requests.{
  IsLegacy, Legacy, Opens, Opens-IsLegacy, Opens-of, Since, and_then-Opens, and_then_rule,
  ensure_session-Ready, in_session-Legacy, opening, reestablish_session-Opens, send-IsLegacy,
  send_inside-Opens,
}

module _ {V : Type 0} (e : Endpoint V) where
  conclude-IsLegacy :
      (base : List (Request V)) (payload : V) (had_session : Bool) (reply : UpstreamReply)
      (u : Upstream V)
      → IsLegacy e base u
      → IsLegacy e base (conclude e payload had_session reply u).0
  unfolding conclude messages
  conclude-IsLegacy base payload had_session reply u legacy =
      elim (Bool-cases (had_session && reply.status == 404)) [
        | inl expired ↦ rw expired (
            Opens-IsLegacy e base _ (
              and_then-Opens e base (reestablish_session e u) _
                (reestablish_session-Opens e base u legacy)
                λ _ v kept inside.
                  and_then-Opens e base (send e payload none v) _
                    (send_inside-Opens e base payload v kept inside)
                    (λ again w kept inside. Opens-of e _ kept inside)))
        | inr settled ↦ rw settled legacy
      ]

  exchange-IsLegacy :
      (base : List (Request V)) (payload : V) (u : Upstream V)
      → IsLegacy e base u
      → Legacy e
          (record { headers = request_headers e payload none u.session_id; payload = payload })
      → IsLegacy e base (exchange e payload u).0
  unfolding exchange prepare_upstream
  exchange-IsLegacy base payload u legacy request =
      let client : is_some u.initialize ≡ true = ap is_some legacy.handshake.1 in
      let kept = send-IsLegacy e base payload u legacy request in
      rw client (
        and_then_rule (λ r. IsLegacy e base r.0) (send e payload none u)
          (conclude e payload (is_some u.session_id)) (λ failure _. kept)
          (λ reply _. conclude-IsLegacy base payload (is_some u.session_id) reply _ kept))

  Opens-exchange :
      (base : List (Request V)) (payload : V) (r : Upstream V × Result Failure (Unit {0}))
      → Opens e base r
      → IsLegacy e base (and_then r (λ _. exchange e payload)).0
  Opens-exchange base payload (u, ok b) h =
      exchange-IsLegacy base payload u h.0 (in_session-Legacy e payload u h.1)
  Opens-exchange base payload (u, err failure) h = h

  pub note_initialize_other :
      (payload : V) (u : Upstream V)
      → is_initialize e payload ≡ false
      → note_initialize e payload u ≡ u
  unfolding note_initialize
  note_initialize_other payload u other = rw other

  pub forward-IsLegacy :
      (base : List (Request V)) (payload : V) (u : Upstream V)
      → IsLegacy e base u
      → is_initialize e payload ≡ false
      → IsLegacy e base (forward e payload u).0
  unfolding forward
  forward-IsLegacy base payload u legacy other = rw (note_initialize_other payload u other) (
      Opens-exchange base payload (ensure_session e payload u)
        (ensure_session-Ready e base payload u legacy other))

  -- The message `initialize` opens the protocol, whatever was sent before it.
  pub forward_initialize-IsLegacy :
      (base : List (Request V)) (payload : V) (u : Upstream V)
      → Since e base u.received
      → is_initialize e payload ≡ true
      → IsLegacy e base (forward e payload u).0
  unfolding forward note_initialize ensure_session
  forward_initialize-IsLegacy base payload u since says =
      let v : Upstream V = record u { session_id = none; initialize = some payload } in
      rw says (
        exchange-IsLegacy base payload v
          (record { handshake = (payload, refl, says); since = since }) (opening says refl))

  pub forward-next-IsLegacy :
      (base : List (Request V)) (payload : V) (u : Upstream V)
      → IsLegacy e base u
      → IsLegacy e base (forward e payload u).0
  forward-next-IsLegacy base payload u legacy = elim (Bool-cases (is_initialize e payload)) [
    | inl says ↦ forward_initialize-IsLegacy base payload u legacy.since says
    | inr other ↦ forward-IsLegacy base payload u legacy other
  ]

  -- The connection after a run of messages.
  pub forward_all : List V → Upstream V → Upstream V
  forward_all [] u = u
  forward_all (payload ∷ rest) u = forward_all rest (forward e payload u).0

  forward_all-IsLegacy :
      (base : List (Request V)) (payloads : List V) (u : Upstream V)
      → IsLegacy e base u
      → IsLegacy e base (forward_all payloads u)
  unfolding forward_all
  forward_all-IsLegacy base [] u legacy = legacy
  forward_all-IsLegacy base (payload ∷ rest) u legacy =
      forward_all-IsLegacy base rest (forward e payload u).0
        (forward-next-IsLegacy base payload u legacy)

-- From the message `initialize` on, whatever messages follow and however the server answers, each
-- request that the adapter sends is either an `initialize` with the two common headers alone or a
-- message with these and a session header; and an `initialize` to replay stays known.
pub forward_initialize_all-IsLegacy :
    {V : Type 0} (e : Endpoint V) (u : Upstream V) (payload : V) (later : List V)
    → is_initialize e payload ≡ true
    → IsLegacy e u.received (forward_all e (payload ∷ later) u)
unfolding forward_all
forward_initialize_all-IsLegacy e u payload later says =
    forward_all-IsLegacy e u.received later (forward e payload u).0
      (forward_initialize-IsLegacy e u.received payload u ([], refl, tt) says)
