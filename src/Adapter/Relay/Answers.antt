-- ===== src/Adapter/Relay/Answers.antt =====
-- Every line of the input gets its answer.
use rust_mcp.Prelude.{
  ℕ, ◌≤◌, ◌≡◌, refl, ap, ◌∙◌, ◌⊎◌, true, false, not, ◌&&◌, List, [], ◌∷◌, ◌++◌, Option, none, some,
  Result, ok, err, arith, length, All, In-All, In-select,
}
use rust_mcp.Text.{Text, codes, text_eq}
use mathlib.Core.Logic.{⊎_elim}
use rust_mcp.Json.{IsJson}
use rust_mcp.Adapter.Upstream.{Failure, Upstream, Endpoint, forward}
use rust_mcp.Adapter.Relay.{
  failure_text, jsonrpc_error, jsonrpc_error_for_payload, has_id, upstream_messages, answered,
  passed_on, relay_payload, relay_line, relay_lines, main_loop, stdio_lines,
}

module _ {V : Type 0} (e : Endpoint V) (status_line : ℕ → Text) (parse_failure : Text → Text) where
  abbrev id_of : V → Option V
  id_of value = e.json.get (codes "id") value

  -- Something is written for a request, and only messages with an id for a notification.
  pub record Answers (payload : V) (values : List V) : Type 0 where
    pub request : has_id e status_line parse_failure payload ≡ true → 1 ≤ length values
    pub notification :
        has_id e status_line parse_failure payload ≡ false
        → All (λ value. has_id e status_line parse_failure value ≡ true) values

  -- What is written for a line: one error for a line that is not JSON.
  abbrev pub AnswersLine : Text → Option V → List V → Type 0
  AnswersLine line none values =
      values ≡ jsonrpc_error e status_line parse_failure e.json.null 32700 (parse_failure line) ∷ []
  AnswersLine line (some payload) values = Answers payload values

  abbrev pub AnswersAll : List Text → List (List V) → Type 0
  AnswersAll [] [] = Unit
  AnswersAll [] (values ∷ more) = ⊥
  AnswersAll (line ∷ rest) [] = ⊥
  AnswersAll (line ∷ rest) (values ∷ more) =
      AnswersLine line (e.json.from_str line) values × AnswersAll rest more

  passed_on_all :
      (payload : V) (values : List V)
      → has_id e status_line parse_failure payload ≡ true
      → passed_on e status_line parse_failure payload values ≡ values
  unfolding passed_on
  passed_on_all payload [] request = refl
  passed_on_all payload (value ∷ values) request = ground (arith, passed_on_all payload values)

  answered_some :
      (payload : V) (values : List V)
      → has_id e status_line parse_failure payload ≡ true
      → 1 ≤ length (answered e status_line parse_failure payload values)
  unfolding answered
  answered_some payload [] request = ground arith
  answered_some payload (value ∷ values) request = omega arith

  passed_on_id :
      (payload value : V)
      → has_id e status_line parse_failure payload ≡ false
      → not (
          not (has_id e status_line parse_failure value)
          && not (has_id e status_line parse_failure payload))
        ≡ true
      → has_id e status_line parse_failure value ≡ true
  passed_on_id payload value notification kept = ground arith

  passed_on_ids :
      (payload : V) (values : List V)
      → has_id e status_line parse_failure payload ≡ false
      → All
          (λ value. has_id e status_line parse_failure value ≡ true)
          (passed_on e status_line parse_failure payload values)
  unfolding passed_on
  passed_on_ids payload values notification =
      In-All (λ value. has_id e status_line parse_failure value ≡ true) _
        λ value m. passed_on_id payload value notification (In-select _ values m).1

  passed_on-Answers :
      (payload : V) (values : List V)
      → Answers payload (
          passed_on e status_line parse_failure payload
            (answered e status_line parse_failure payload values))
  passed_on-Answers payload values = record {
    request = λ request.
        rw (passed_on_all payload (answered e status_line parse_failure payload values) request)
          (answered_some payload values request);
    notification = passed_on_ids payload (answered e status_line parse_failure payload values);
  }

  relay_payload-Answers :
      (payload : V) (u : Upstream V)
      → Answers payload (relay_payload e status_line parse_failure payload u).1
  unfolding relay_payload
  relay_payload-Answers payload u = passed_on-Answers payload _

  relay_line-Answers :
      (line : Text) (parsed : Option V) (u : Upstream V)
      → AnswersLine line parsed (relay_line e status_line parse_failure line parsed u).1
  unfolding relay_line
  relay_line-Answers line none u = refl
  relay_line-Answers line (some payload) u = relay_payload-Answers payload u

  relay_lines-Answers :
      (lines : List Text) (u : Upstream V)
      → AnswersAll lines (relay_lines e status_line parse_failure lines u)
  unfolding relay_lines
  relay_lines-Answers [] u = tt
  relay_lines-Answers (line ∷ rest) u = (
    relay_line-Answers line (e.json.from_str line) u,
    relay_lines-Answers rest
        (relay_line e status_line parse_failure line (e.json.from_str line) u).0,
  )

  -- Whatever the server does, each message of the input gets its answer: a request at least one
  -- message, a notification only messages with an id, and a line that is not JSON one parse error with
  -- the id null.
  pub main_loop-AnswersAll :
      (input : List Text)
      → AnswersAll (stdio_lines input) (main_loop e status_line parse_failure input)
  unfolding main_loop
  main_loop-AnswersAll input = relay_lines-Answers (stdio_lines input) _

  failed_messages :
      (payload : V) (reply : Result Failure (List V))
      → reply ≡ ok [] ⊎ ((failure : Failure) × (reply ≡ err failure))
      → has_id e status_line parse_failure payload ≡ true
      → (text : Text) × (answered e status_line parse_failure payload
            (upstream_messages e status_line parse_failure payload reply)
          ≡ jsonrpc_error_for_payload e status_line parse_failure payload 32000 text ∷ [])
  unfolding answered upstream_messages
  failed_messages payload (ok []) failed request =
      (codes "stdio proxy upstream returned no JSON-RPC payload", rw request)
  failed_messages payload (ok (value ∷ values)) failed request =
      absurd (⊎_elim (λ p. cc) (λ p. cc (p.1)) failed)
  failed_messages payload (err failure) failed request =
      (codes "stdio proxy upstream call failed: " ++ failure_text status_line failure, refl)

  has_id_lem :
      (payload id : V) → id_of payload ≡ some id → has_id e status_line parse_failure payload ≡ true
  unfolding has_id
  has_id_lem payload id at = rw at

  jsonrpc_error_for_payload_lem :
      (payload id : V) (code : ℕ) (text : Text)
      → id_of payload ≡ some id
      → jsonrpc_error_for_payload e status_line parse_failure payload code text
        ≡ jsonrpc_error e status_line parse_failure id code text
  unfolding jsonrpc_error_for_payload
  jsonrpc_error_for_payload_lem payload id code text at = rw at

  pub jsonrpc_error-id :
      IsJson e.json
      → (id : V) (code : ℕ) (text : Text)
      → e.json.get (codes "id") (jsonrpc_error e status_line parse_failure id code text) ≡ some id
  unfolding jsonrpc_error text_eq
  jsonrpc_error-id lawful id code text = rw lawful.get-object

  -- Where a request has an id and forwarding it fails or returns no message, one message is written, an
  -- error with the request's own id.
  pub relay_payload-failed :
      IsJson e.json
      → (payload id : V) (u : Upstream V) → id_of payload ≡ some id
      → (forward e payload u).1 ≡ ok []
        ⊎ ((failure : Failure) × ((forward e payload u).1 ≡ err failure))
      → (text : Text) × ((relay_payload e status_line parse_failure payload u).1
          ≡ jsonrpc_error e status_line parse_failure id 32000 text ∷ [])
        × (id_of (jsonrpc_error e status_line parse_failure id 32000 text) ≡ some id)
  unfolding relay_payload
  relay_payload-failed lawful payload id u at failed =
      let request : has_id e status_line parse_failure payload ≡ true = has_id_lem payload id at in
      let (text, one) = failed_messages payload (forward e payload u).1 failed request in
      (
        text,
        passed_on_all payload _ request
            ∙ one
            ∙ ap (λ l. l ∷ []) (jsonrpc_error_for_payload_lem payload id 32000 text at),
        jsonrpc_error-id lawful id 32000 text,
      )
