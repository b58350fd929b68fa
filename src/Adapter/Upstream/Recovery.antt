-- ===== src/Adapter/Upstream/Recovery.antt =====
-- How many requests one message costs, and what a failed recovery leaves.
use rust_mcp.Prelude.{
  ℕ, suc, ◌+◌, ◌≤◌, ◌≡◌, refl, ap, ◌∙◌, inl, inr, Bool, true, false, not, ◌&&◌, Option, none, some,
  Result, ok, err, arith, length, ◌==◌, Bool-cases,
}
use rust_mcp.Prelude.Options.{is_some}
use rust_mcp.Text.{Text}
use rust_mcp.Adapter.Upstream.{
  UpstreamReply, Failure, Upstream, Endpoint, and_then, send, is_success, is_initialize,
  prepare_upstream, reestablish_session, note_initialize, ensure_session, conclude, exchange,
  forward, replay, session_check, initialized, messages,
}
use rust_mcp.Adapter.Upstream.Legacy.{note_initialize_other}
use rust_mcp.Adapter.Upstream.Requests.{send-Sent}

module _ {V : Type 0} (e : Endpoint V) where
  -- At most `n` requests more than `start` have been sent.
  abbrev Within : ℕ → {B : Type 0} → Upstream V × Result Failure B → Type 0
  Within n r = length r.0.received ≤ n

  and_then-Within :
      (n m : ℕ) {A B : Type 0} (r : Upstream V × Result Failure A)
      (f : A → Upstream V → Upstream V × Result Failure B)
      → Within n r
      → n ≤ m
      → ((a : A) (u : Upstream V) → length u.received ≤ n → Within m (f a u))
      → Within m (and_then r f)
  and_then-Within n m (u, ok a) f h le next = next a u h
  and_then-Within n m (u, err failure) f h le next = omega arith

  send-Within :
      (n : ℕ) (payload : V) (version : Option Text) (u : Upstream V)
      → length u.received ≤ n
      → Within (suc n) (send e payload version u)
  send-Within n payload version u h =
      omega (arith, ap length (send-Sent e payload version u).received)

  session_check-Within :
      (n : ℕ) (reply : UpstreamReply) (u : Upstream V)
      → length u.received ≤ n
      → Within n (session_check e reply u)
  unfolding session_check
  session_check-Within n reply u h = ground arith

  replay-Within :
      (n : ℕ) (init : Option V) (u : Upstream V)
      → length u.received ≤ n
      → Within (n + 2) (replay e init u)
  unfolding replay
  replay-Within n none u h = omega arith
  replay-Within n (some init) u h =
      and_then-Within (suc n) (n + 2) (send e init none u) _ (send-Within n init none u h)
        (omega arith)
        λ reply v within.
          and_then-Within (suc n) (n + 2) (session_check e reply v) _
            (session_check-Within (suc n) reply v within) (omega arith)
            λ _ w within.
              and_then-Within (suc (suc n)) (n + 2) (send e (initialized e) none w) _
                (send-Within (suc n) (initialized e) none w within) (omega arith)
                (λ _ x within. omega arith)

  reestablish_session-Within :
      (n : ℕ) (u : Upstream V) → length u.received ≤ n → Within (n + 2) (reestablish_session e u)
  unfolding reestablish_session
  reestablish_session-Within n u h = replay-Within n u.initialize _ h

  ensure_session-Within :
      (n : ℕ) (payload : V) (u : Upstream V)
      → length u.received ≤ n
      → Within (n + 2) (ensure_session e payload u)
  unfolding ensure_session
  ensure_session-Within n payload u h =
      elim (Bool-cases
        (is_some u.initialize && (not (is_initialize e payload) && not (is_some u.session_id)))) [
          | inl lost ↦ rw lost (reestablish_session-Within n u h)
          | inr settled ↦ rw settled (omega arith)
        ]

  conclude-Within :
      (n : ℕ) (payload : V) (had_session : Bool) (reply : UpstreamReply) (u : Upstream V)
      → length u.received ≤ n
      → Within (n + 3) (conclude e payload had_session reply u)
  unfolding conclude messages
  conclude-Within n payload had_session reply u h =
      elim (Bool-cases (had_session && reply.status == 404)) [
        | inl expired ↦ rw expired (
            and_then-Within (n + 2) (n + 3) (reestablish_session e u) _
              (reestablish_session-Within n u h) (omega arith)
              λ _ v within.
                and_then-Within (n + 3) (n + 3) (send e payload none v) _
                  (omega (arith, send-Within (n + 2) payload none v within)) (omega arith)
                  (λ again w within. within))
        | inr settled ↦ rw settled (omega arith)
      ]

  exchange-Within :
      (n : ℕ) (payload : V) (u : Upstream V)
      → length u.received ≤ n
      → Within (n + 4) (exchange e payload u)
  unfolding exchange
  exchange-Within n payload u h =
      let (prepared, version) = prepare_upstream e payload (is_some u.initialize) in
      and_then-Within (n + 1) (n + 4) (send e prepared version u) _
        (omega (arith, send-Within n prepared version u h)) (omega arith)
        (λ reply v within.
          omega (arith, conclude-Within (n + 1) payload (is_some u.session_id) reply v within))

  note_initialize-received :
      (payload : V) (u : Upstream V) → (note_initialize e payload u).received ≡ u.received
  unfolding note_initialize
  note_initialize-received payload u = ground arith

-- One message of the client costs at most six requests: a handshake of two before it, the message, and
-- after a reply of 404 a handshake of two and the message again.
pub forward_bound :
    {V : Type 0} (e : Endpoint V) (payload : V) (u : Upstream V)
    → length (forward e payload u).0.received ≤ length u.received + 6
unfolding forward
forward_bound e payload u =
    let n : ℕ = length u.received in
    and_then-Within e (n + 2) (n + 6) (ensure_session e payload (note_initialize e payload u)) _
      (ensure_session-Within e n payload (note_initialize e payload u)
        (omega (arith, ap length (note_initialize-received e payload u))))
      (omega arith) (λ _ v within. omega (arith, exchange-Within e (n + 2) payload v within))

and_then_failed :
    {V A B : Type 0} (r : Upstream V × Result Failure A)
    (f : A → Upstream V → Upstream V × Result Failure B) (failure : Failure)
    → r.1 ≡ err failure
    → and_then r f ≡ (r.0, err failure)
and_then_failed (u, ok a) f failure h = cc
and_then_failed (u, err other) f failure h = ground arith

module _ {V : Type 0} (e : Endpoint V) where
  replay-half_open :
      (init : V) (u v : Upstream V) (opened : UpstreamReply) (failure : Failure)
      → send e init none u ≡ (v, ok opened)
      → is_success opened.status ≡ true
      → is_some v.session_id ≡ true
      → (send e (initialized e) none v).1 ≡ err failure
      → replay e (some init) u ≡ ((send e (initialized e) none v).0, err failure)
  unfolding replay session_check
  replay-half_open init u v opened failure sent success open_session lost =
      rw sent (
        rw (success, open_session) (and_then_failed (send e (initialized e) none v) _ failure lost))

  ensure_session-half_open :
      (payload init : V) (u v : Upstream V) (opened : UpstreamReply) (failure : Failure)
      → is_initialize e payload ≡ false
      → u.session_id ≡ none
      → u.initialize ≡ some init
      → send e init none (record u { session_id = none }) ≡ (v, ok opened)
      → is_success opened.status ≡ true
      → is_some v.session_id ≡ true
      → (send e (initialized e) none v).1 ≡ err failure
      → ensure_session e payload u ≡ ((send e (initialized e) none v).0, err failure)
  unfolding ensure_session reestablish_session
  ensure_session-half_open payload init u v opened failure other closed known sent success
        open_session lost =
      let client : is_some u.initialize ≡ true = ap is_some known in
      let no_session : is_some u.session_id ≡ false = ap is_some closed in
      rw (client, other, no_session)
        (ap (λ o. replay e o (record u { session_id = none })) known
          ∙ replay-half_open init (record u { session_id = none }) v opened failure sent success
              open_session lost)

  ensure_session_open :
      (payload : V) (u : Upstream V)
      → is_some u.session_id ≡ true
      → ensure_session e payload u ≡ (u, ok tt)
  unfolding ensure_session
  ensure_session_open payload u open_session = ground arith

-- Where the replayed `initialize` opens a session and the notification behind it fails, the message
-- fails with it, the session stays, and the next message that is no `initialize` goes ahead within
-- that session: the handshake is not replayed.
pub forward-half_open :
    {V : Type 0} (e : Endpoint V) (payload next init : V) (u v : Upstream V)
    (opened : UpstreamReply) (failure : Failure)
    → is_initialize e payload ≡ false
    → is_initialize e next ≡ false
    → u.session_id ≡ none
    → u.initialize ≡ some init
    → send e init none (record u { session_id = none }) ≡ (v, ok opened)
    → is_success opened.status ≡ true
    → is_some v.session_id ≡ true
    → (send e (initialized e) none v).1 ≡ err failure
    → ((forward e payload u).1 ≡ err failure)
      × (is_some (forward e payload u).0.session_id ≡ true)
      × (ensure_session e next (forward e payload u).0 ≡ ((forward e payload u).0, ok tt))
unfolding forward
forward-half_open {V} e payload next init u v opened failure other next_other closed known sent
      success open_session lost =
    let w : Upstream V = (send e (initialized e) none v).0 in
    let inside = (send-Sent e (initialized e) none v).session open_session in
    let failed =
      ensure_session-half_open e payload init u v opened failure other closed known sent success
        open_session lost in
    rw (note_initialize_other e payload u other, failed)
      (refl, inside, ensure_session_open e next w inside)
