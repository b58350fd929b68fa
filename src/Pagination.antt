-- ===== src/Pagination.antt =====
-- Cursors and pages: `CursorToken`, `encode_cursor`, `decode_cursor`, `resolve_pagination` and
-- `apply_pagination_limit` of crates/rust-mcp/src/mcp/utils.rs. base64 and serde are the parameter
-- `Codec`; a u32 is a natural number below 2 ^ 32, and its arithmetic wraps as in a release build.
pub mod Walk
use rust_mcp.Prelude.{
  ℕ, ◌+◌, ◌-◌, ◌*◌, ◌/◌, ◌%◌, ◌^◌, ◌≤◌, ◌<◌, ◌≡◌, refl, min, Bool, true, false, not, ◌&&◌, List,
  Option, none, some, arith, ltb, ◌==◌, if◌then◌else◌, length, take, Option-cases, inl, inr, Result,
  ok, err, ◌>>=◌, ◌>>◌, ok_or, guard,
}
use rust_mcp.Text.{Text}

pub data CursorError : Type 0 where
  base64_failed deserialization_failed serialization_failed : CursorError
  version_unsupported cursor_invalid limit_mismatch : CursorError

-- The largest u32, and `u32::saturating_add`.
abbrev pub u32_max : ℕ
u32_max = 2 ^ 32 - 1

abbrev pub saturating_add : ℕ → ℕ → ℕ
saturating_add a b = min (a + b) u32_max

-- What base64 (URL-safe, no padding) and serde_json do for one token type.
pub record Codec (T : Type 0) : Type 0 where
  pub to_bytes : T → Option Text
  pub from_bytes : Text → Option T
  pub encode64 : Text → Text
  pub decode64 : Text → Option Text

-- The two libraries read back what they wrote.
pub record IsFaithful {T : Type 0} (c : Codec T) : Type 0 where
  pub base64 : (bytes : Text) → c.decode64 (c.encode64 bytes) ≡ some bytes
  pub serde : (t : T) (bytes : Text) → c.to_bytes t ≡ some bytes → c.from_bytes bytes ≡ some t

-- The trait `CursorToken`: a token shows its version, page size and offset.
pub record CursorToken (T : Type 0) : Type 0 where
  pub version : T → ℕ
  pub limit : T → ℕ
  pub offset : T → ℕ

pub record PaginationParams : Type 0 where
  pub offset : ℕ
  pub limit : ℕ
  pub effective_page : ℕ

pub record PaginatedResult (A : Type 0) : Type 0 where
  pub items : List A
  pub has_more : Bool
  pub next_cursor : Option Text

module _ {T : Type 0} (codec : Codec T) (token : CursorToken T) where
  unfoldable pub decode_cursor : Text → Result CursorError T
  decode_cursor text = do
    bytes ← ok_or base64_failed (codec.decode64 text)
    decoded ← ok_or deserialization_failed (codec.from_bytes bytes)
    guard (token.version decoded == 1) version_unsupported
    guard (not (token.limit decoded == 0)) cursor_invalid
    ok decoded

  unfoldable pub encode_cursor : T → Result CursorError Text
  encode_cursor t = do
    bytes ← ok_or serialization_failed (codec.to_bytes t)
    ok (codec.encode64 bytes)

  -- From a token, or from a page number and a limit.
  unfoldable pub resolve_pagination : Option T → Bool → ℕ → ℕ → Result CursorError PaginationParams
  resolve_pagination (some t) explicit_limit requested_limit page = do
    guard (not (explicit_limit && not (requested_limit == token.limit t))) limit_mismatch
    ok (record {
      offset = token.offset t;
      limit = token.limit t;
      effective_page = saturating_add (token.offset t / token.limit t) 1;
    })
  resolve_pagination none explicit_limit requested_limit page = ok (record {
    offset = (page + 2 ^ 32 - 1) % 2 ^ 32 * requested_limit % 2 ^ 32;
    limit = requested_limit;
    effective_page = page;
  })

  -- The next token is built only where there is more.
  unfoldable pub apply_pagination_limit :
      {A : Type 0} → List A → ℕ → ℕ → (ℕ → T) → Result CursorError (PaginatedResult A)
  unfolding encode_cursor
  apply_pagination_limit items limit offset build_next_token =
      if ltb limit (length items)
      then (do
        cursor ← encode_cursor (build_next_token (saturating_add offset limit))
        ok (record { items = take limit items; has_more = true; next_cursor = some cursor }))
      else ok (record { items = items; has_more = false; next_cursor = none })

  -- With libraries that read back what they wrote, a cursor that was encoded from a token of version
  -- 1 with a positive page size is decoded to that token.
  pub decode_cursor-encode_cursor :
      IsFaithful codec
      → (t : T) (text : Text) → token.version t ≡ 1
      → 0 < token.limit t
      → encode_cursor t ≡ ok text
      → decode_cursor text ≡ ok t
  unfolding decode_cursor encode_cursor
  decode_cursor-encode_cursor f t text v l h = elim (Option-cases (codec.to_bytes t)) [
    | inl e ↦ ground arith
    | inr (b, e) ↦ ground (arith, f.base64 b, f.serde t b e)
  ]

  -- A token that is decoded has version 1 and a positive page size.
  decode_cursor_valid :
      (text : Text) (t : T)
      → decode_cursor text ≡ ok t
      → (token.version t ≡ 1) × (0 < token.limit t)
  unfolding decode_cursor
  decode_cursor_valid text t h = ground arith
