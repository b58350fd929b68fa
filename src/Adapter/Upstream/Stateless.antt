-- ===== src/Adapter/Upstream/Stateless.antt =====
-- What a client that never said `initialize` sends upstream.
use rust_mcp.Prelude.{◌≡◌, true, false, unwrap_or}
use rust_mcp.Prelude.Options.{is_some}
use rust_mcp.Text.{Text, codes}
use rust_mcp.Json.{IsJson}
use rust_mcp.Adapter.Protocol.{
  latest_mcp_protocol_version, request_meta_protocol_version, method_of,
}
use rust_mcp.Adapter.Upstream.{Endpoint, method_is}

module _ {V : Type 0} (e : Endpoint V) (lawful : IsJson e.json) where
  -- A request that is no part of the legacy handshake.
  pub record IsCall (payload : V) : Type 0 where
    pub method : is_some (method_of e.json payload) ≡ true
    pub id : is_some (e.json.get (codes "id") payload) ≡ true
    pub no_initialize : method_is e (codes "initialize") payload ≡ false
    pub no_initialized : method_is e (codes "notifications/initialized") payload ≡ false

  -- The version that a message goes upstream with: its own, or else the latest.
  abbrev pub version_of : V → Text
  version_of payload =
      unwrap_or latest_mcp_protocol_version (request_meta_protocol_version e.json payload)
