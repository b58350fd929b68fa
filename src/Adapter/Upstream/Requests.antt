-- ===== src/Adapter/Upstream/Requests.antt =====
-- What the requests of a legacy client are, and that the handshake keeps to them.
use rust_mcp.Prelude.{
  ◌≡◌, refl, sym, ap, subst, ◌∙◌, inl, inr, true, false, List, ◌∷◌, ◌++◌, Option, none, some,
  Result, ok, err, arith, All, Bool-cases, Option-cases,
}
use rust_mcp.Prelude.Options.{is_some}
use rust_mcp.Text.{Text}
use rust_mcp.Adapter.Upstream.{
  Request, UpstreamReply, Failure, Upstream, Endpoint, and_then, request_headers, send,
  is_initialize, reestablish_session, ensure_session, accepted, read_body, replay, session_check,
  initialized,
}

-- What holds of a step's outcome whether it fails or not holds of the steps that follow it.
pub and_then_rule :
    {V A B : Type 0} (P : Upstream V × Result Failure B → Type 0)
    (r : Upstream V × Result Failure A) (f : A → Upstream V → Upstream V × Result Failure B)
    → ((failure : Failure) → r.1 ≡ err failure → P (r.0, err failure))
    → ((a : A) → r.1 ≡ ok a → P (f a r.0))
    → P (and_then r f)
and_then_rule P (u, ok a) f failed went = went a refl
and_then_rule P (u, err failure) f failed went = failed failure refl

not_open : {o : Option Text} → o ≡ none → is_some o ≡ true → ⊥
not_open closed open_session = cc

module _ {V : Type 0} (e : Endpoint V) where
  -- What `send` does to the connection.
  pub record Sent (payload : V) (version : Option Text) (u v : Upstream V) : Type 0 where
    pub initialize : v.initialize ≡ u.initialize
    pub received :
        v.received
        ≡ record { headers = request_headers e payload version u.session_id; payload = payload }
          ∷ u.received
    pub session : is_some u.session_id ≡ true → is_some v.session_id ≡ true

  pub send-Sent :
      (payload : V) (version : Option Text) (u : Upstream V)
      → Sent payload version u (send e payload version u).0
  unfolding send accepted read_body
  send-Sent payload version u = ground arith

  -- A request of the legacy protocol: the handshake itself, or a message within a session. Neither
  -- has the headers of the stateless protocol.
  pub data Legacy (r : Request V) : Type 0 where
    opening :
        is_initialize e r.payload ≡ true
        → r.headers ≡ request_headers e r.payload none none
        → Legacy r
    in_session : (s : Text) → r.headers ≡ request_headers e r.payload none (some s) → Legacy r

  -- What was sent after `base`, the last first, is of the legacy protocol.
  abbrev pub Since : List (Request V) → List (Request V) → Type 0
  Since base received = (sent : List (Request V)) × (received ≡ sent ++ base) × All Legacy sent

  -- A connection whose client has said `initialize`, and what was sent on it after `base`.
  pub record IsLegacy (base : List (Request V)) (u : Upstream V) : Type 0 where
    pub handshake : (init : V) × (u.initialize ≡ some init) × (is_initialize e init ≡ true)
    pub since : Since base u.received

  Since-cons :
      (base : List (Request V)) (r : Request V) {rs received : List (Request V)}
      → Since base rs
      → received ≡ r ∷ rs
      → Legacy r
      → Since base received
  Since-cons base r (sent, at, all) grown legacy =
      (r ∷ sent, grown ∙ ap (λ l. r ∷ l) at, (legacy, all))

  -- `send` keeps the invariant where the request is of the legacy protocol.
  pub send-IsLegacy :
      (base : List (Request V)) (payload : V) (u : Upstream V)
      → IsLegacy base u
      → Legacy (record { headers = request_headers e payload none u.session_id; payload = payload })
      → IsLegacy base (send e payload none u).0
  send-IsLegacy base payload u legacy request =
      let sent = send-Sent payload none u in
      let (init, known, says) = legacy.handshake in
      record {
        handshake = (init, sent.initialize ∙ known, says);
        since = Since-cons base _ legacy.since sent.received request;
      }

  pub in_session-Legacy :
      (payload : V) (u : Upstream V)
      → is_some u.session_id ≡ true
      → Legacy (record { headers = request_headers e payload none u.session_id; payload = payload })
  in_session-Legacy payload u open_session = elim (Option-cases u.session_id) [
    | inl closed ↦ absurd (not_open closed open_session)
    | inr (s, at) ↦ in_session s (ap (request_headers e payload none) at)
  ]

  send_inside-IsLegacy :
      (base : List (Request V)) (payload : V) (u : Upstream V)
      → IsLegacy base u
      → is_some u.session_id ≡ true
      → IsLegacy base (send e payload none u).0
        × (is_some (send e payload none u).0.session_id ≡ true)
  send_inside-IsLegacy base payload u legacy open_session = (
    send-IsLegacy base payload u legacy (in_session-Legacy payload u open_session),
    (send-Sent payload none u).session open_session,
  )

  -- The outcome of a step that leaves a session, or fails.
  abbrev pub Opens : List (Request V) → {B : Type 0} → Upstream V × Result Failure B → Type 0
  Opens base (u, ok b) = IsLegacy base u × (is_some u.session_id ≡ true)
  Opens base (u, err failure) = IsLegacy base u

  pub Opens-IsLegacy :
      (base : List (Request V)) {B : Type 0} (r : Upstream V × Result Failure B)
      → Opens base r
      → IsLegacy base r.0
  Opens-IsLegacy base (u, ok b) h = h.0
  Opens-IsLegacy base (u, err failure) h = h

  pub Opens-of :
      {base : List (Request V)} {B : Type 0} (r : Upstream V × Result Failure B)
      → IsLegacy base r.0
      → is_some r.0.session_id ≡ true
      → Opens base r
  Opens-of (u, ok b) legacy open_session = (legacy, open_session)
  Opens-of (u, err failure) legacy open_session = legacy

  pub and_then-Opens :
      (base : List (Request V)) {A B : Type 0} (r : Upstream V × Result Failure A)
      (f : A → Upstream V → Upstream V × Result Failure B)
      → Opens base r
      → ((a : A) (u : Upstream V)
          → IsLegacy base u
          → is_some u.session_id ≡ true
          → Opens base (f a u))
      → Opens base (and_then r f)
  and_then-Opens base (u, ok a) f h next = next a u h.0 h.1
  and_then-Opens base (u, err failure) f h next = h

  session_check-Opens :
      (base : List (Request V)) (reply : UpstreamReply) (u : Upstream V)
      → IsLegacy base u
      → Opens base (session_check e reply u)
  unfolding session_check
  session_check-Opens base reply u legacy = ground arith

  pub send_inside-Opens :
      (base : List (Request V)) (payload : V) (u : Upstream V)
      → IsLegacy base u
      → is_some u.session_id ≡ true
      → Opens base (send e payload none u)
  send_inside-Opens base payload u legacy open_session =
      let kept = send_inside-IsLegacy base payload u legacy open_session in
      Opens-of (send e payload none u) kept.0 kept.1

  replay-Opens :
      (base : List (Request V)) (init : V) (u : Upstream V)
      → IsLegacy base u
      → is_initialize e init ≡ true
      → u.session_id ≡ none
      → Opens base (replay e (some init) u)
  unfolding replay
  replay-Opens base init u legacy says closed =
      let opened =
        send-IsLegacy base init u legacy (opening says (ap (request_headers e init none) closed)) in
      and_then_rule (Opens base) (send e init none u) _ (λ failure _. opened)
        λ reply _.
          and_then-Opens base (session_check e reply (send e init none u).0) _
            (session_check-Opens base reply _ opened)
            λ _ v kept inside.
              and_then-Opens base (send e (initialized e) none v) _
                (send_inside-Opens base (initialized e) v kept inside)
                (λ _ w kept inside. (kept, inside))

  pub reestablish_session-Opens :
      (base : List (Request V)) (u : Upstream V)
      → IsLegacy base u
      → Opens base (reestablish_session e u)
  unfolding reestablish_session
  reestablish_session-Opens base u legacy =
      let (init, known, says) = legacy.handshake in
      let closed : Upstream V = record u { session_id = none } in
      subst (λ o. Opens base (replay e o closed)) (sym known)
        (replay-Opens base init closed
          (record { handshake = legacy.handshake; since = legacy.since }) says refl)

  pub ensure_session-Ready :
      (base : List (Request V)) (payload : V) (u : Upstream V)
      → IsLegacy base u
      → is_initialize e payload ≡ false
      → Opens base (ensure_session e payload u)
  unfolding ensure_session
  ensure_session-Ready base payload u legacy other =
      let client : is_some u.initialize ≡ true = ap is_some legacy.handshake.1 in
      elim (Bool-cases (is_some u.session_id)) [
        | inl open_session ↦ rw (client, other, open_session) (legacy, open_session)
        | inr closed ↦ rw (client, other, closed) (reestablish_session-Opens base u legacy)
      ]
