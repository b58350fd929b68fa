-- ===== src/Adapter/Protocol.antt =====
-- The stateless protocol's metadata, crates/rust-mcp-types/src/protocol.rs: the version that a
-- message carries, the metadata that is added to it, and the headers of its request. The Base64
-- coding of a header's value is a parameter.
pub mod Metadata
use rust_mcp.Prelude.{
  ℕ, ◌≡◌, Bool, true, false, not, ◌&&◌, ◌||◌, List, [], ◌∷◌, ◌++◌, Option, none, some,
  if◌then◌else◌, leb, any, is_empty, unwrap_or,
}
use rust_mcp.Prelude.Options.{◌>>=◌, is_some}
use rust_mcp.Text.{Text, codes, text_eq}
use rust_mcp.Text.Pieces.{starts_with, strip_prefix, strip_suffix}
use rust_mcp.Json.{Json}

abbrev pub latest_mcp_protocol_version : Text
latest_mcp_protocol_version = codes "2026-07-28"

abbrev pub meta_key : Text
meta_key = codes "_meta"

abbrev pub meta_protocol_version : Text
meta_protocol_version = codes "io.modelcontextprotocol/protocolVersion"

abbrev pub meta_client_info : Text
meta_client_info = codes "io.modelcontextprotocol/clientInfo"

abbrev pub meta_client_capabilities : Text
meta_client_capabilities = codes "io.modelcontextprotocol/clientCapabilities"

-- The names of the headers that the adapter sends.
pub data HeaderName : Type 0 where
  content_type : HeaderName
  accept : HeaderName
  mcp_session_id : HeaderName
  mcp_protocol_version : HeaderName
  mcp_method : HeaderName
  mcp_name : HeaderName

abbrev pub Header : Type 0
Header = HeaderName × Text

-- `requires_base64`; the prefix and the suffix are those of the package `rmcp`.
blank_start : Text → Bool
unfolding starts_with strip_prefix
blank_start value = starts_with (codes " ") value || starts_with (b'\t' ∷ []) value

blank_end : Text → Bool
unfolding strip_suffix strip_prefix
blank_end value =
    is_some (strip_suffix (codes " ") value) || is_some (strip_suffix (b'\t' ∷ []) value)

unfoldable pub requires_base64 : Text → Text → Text → Bool
unfolding blank_start blank_end starts_with strip_suffix strip_prefix
requires_base64 prefix suffix value =
    not (is_empty value)
    && (blank_start value
        || blank_end value
        || any (λ c. not (leb b' ' c && leb c b'~')) value
        || (starts_with prefix value && is_some (strip_suffix suffix value)))

-- `base64` stands for the coding, with its prefix and suffix.
pub record Base64 : Type 0 where
  pub prefix : Text
  pub suffix : Text
  pub encode : Text → Text

unfoldable pub encode_header_value : Base64 → Text → Text
unfolding requires_base64
encode_header_value base64 value =
    if requires_base64 base64.prefix base64.suffix value
    then base64.prefix ++ (base64.encode value ++ base64.suffix)
    else value

module _ {V : Type 0} (json : Json V) where
  unfoldable pub request_meta_protocol_version : V → Option Text
  request_meta_protocol_version message = do
    params ← json.get (codes "params") message
    meta ← json.get meta_key params
    version ← json.get meta_protocol_version meta
    json.as_str version

  -- `entry(key).or_insert_with(value)` on an object that had `found` at the key.
  unfoldable pub or_insert : Text → V → Option V → V → V
  or_insert key value none m = json.set key value m
  or_insert key value (some v) m = m

  stateless_meta : Text → Text → V → V
  unfolding or_insert
  stateless_meta client_name client_version meta =
      let versioned =
        json.set meta_protocol_version (json.string latest_mcp_protocol_version) meta in
      let capable =
        or_insert meta_client_capabilities (json.object [])
          (json.get meta_client_capabilities versioned) versioned in
      or_insert meta_client_info
        (json.object (
          (codes "name", json.string client_name)
          ∷ (codes "version", json.string client_version)
          ∷ []))
        (json.get meta_client_info capable) capable

  -- `f` applied in place to the entry of the object `m` at `key`, an empty object if there was none;
  -- nothing changes where `m` or the entry is no object.
  unfoldable pub at_entry : Text → (V → V) → V → V
  at_entry key f m =
      let value = unwrap_or (json.object []) (json.get key m) in
      if json.is_object m && json.is_object value then json.set key (f value) m else m

  unfoldable pub insert_stateless_request_meta : Text → Text → V → V
  unfolding stateless_meta at_entry
  insert_stateless_request_meta client_name client_version message =
      at_entry (codes "params") (at_entry meta_key (stateless_meta client_name client_version))
        message

  -- `message.get("method").and_then(Value::as_str)`.
  unfoldable pub method_of : V → Option Text
  method_of message = do method ← json.get (codes "method") message; json.as_str method

  -- The member of `params` that names what a method is about.
  unfoldable pub name_key : Text → Option Text
  unfolding text_eq
  name_key method =
      if text_eq method (codes "tools/call") || text_eq method (codes "prompts/get")
      then some (codes "name")
      else if text_eq method (codes "resources/read")
      then some (codes "uri")
      else none

  name_of : V → Text → Option Text
  unfolding name_key
  name_of message method = do
    key ← name_key method
    params ← json.get (codes "params") message
    name ← json.get key params
    json.as_str name

  name_header : Base64 → Option Text → List Header
  unfolding encode_header_value
  name_header base64 none = []
  name_header base64 (some name) = (mcp_name, encode_header_value base64 name) ∷ []

  method_headers : Base64 → V → Option Text → List Header
  unfolding name_header name_of
  method_headers base64 message none = []
  method_headers base64 message (some method) =
      (mcp_method, method) ∷ name_header base64 (name_of message method)

  unfoldable pub stateless_request_headers : Base64 → V → Text → List Header
  unfolding method_headers method_of
  stateless_request_headers base64 message version =
      (mcp_protocol_version, version) ∷ method_headers base64 message (method_of message)
