-- ===== src/Examples/Instances.antt =====
-- Concrete instances of the parameters: versions of three numbers, and cursors written as bytes.
use rust_mcp.Prelude.{
  ℕ, ◌+◌, ◌-◌, ◌*◌, ◌≡◌, refl, Bool, not, ◌&&◌, List, [], ◌∷◌, ◌++◌, Option, none, some, leb,
  if◌then◌else◌, any,
}
use rust_mcp.Prelude.Options.{◌>>=◌}
use rust_mcp.Order.{Ord, pair_ord, nat_ord}
use rust_mcp.Text.{Text, codes}
use rust_mcp.Text.Pieces.{split, strip_prefix}
use rust_mcp.Semver.{Semver}
use rust_mcp.Pagination.{Codec, CursorToken, IsFaithful}

abbrev pub digits : Text → ℕ → Option ℕ
digits [] n = some n
digits (c ∷ s) n =
    let rest = digits s (n * 10 + (c - 48)) in if leb 48 c && leb c 57 then rest else none

abbrev pub Triple : Type 0
Triple = ℕ × (ℕ × ℕ)

abbrev pub triple : List Text → Option Triple
triple (a ∷ b ∷ c ∷ []) = do x ← digits a 0; y ← digits b 0; z ← digits c 0; some (x, (y, z))
triple _ = none

unfoldable pub parse_triple : Text → Option Triple
unfolding split
parse_triple text = triple (split (codes ".") text)

unfoldable pub parse_at_least : Text → Option Triple
unfolding strip_prefix
parse_at_least text = strip_prefix (codes ">=") text >>= parse_triple

abbrev pub triple_order : Ord Triple
triple_order = pair_ord nat_ord (pair_ord nat_ord nat_ord)

abbrev pub triple_matches : Triple → Triple → Bool
triple_matches bound version = not (triple_order.lt version bound)

-- Versions without pre-releases and build metadata, requirements `>=x.y.z`.
abbrev pub triples : Semver
triples = record {
  Version = Triple;
  parse = parse_triple;
  without_build = λ v. v;
  order = triple_order;
  Requirement = Triple;
  parse_requirement = parse_at_least;
  matches = triple_matches;
  Restrictions = List Triple × List Triple;
  restrict = λ patched unaffected. some (patched, unaffected);
  is_vulnerable = λ r version. not (any (λ b. triple_matches b version) (r.0 ++ r.1));
}

-- A cursor token, and its three fields one after the other as bytes.
pub record Token : Type 0 where
  pub version : ℕ
  pub limit : ℕ
  pub offset : ℕ

abbrev pub written : Token → Option Text
written t = some (t.version ∷ t.limit ∷ t.offset ∷ [])

abbrev pub read : Text → Option Token
read (v ∷ l ∷ o ∷ []) = some (record { version = v; limit = l; offset = o })
read _ = none

abbrev pub dropped : Text → Option Text
dropped [] = none
dropped (c ∷ s) = some s

abbrev pub token_codec : Codec Token
token_codec = record {
  to_bytes = written;
  from_bytes = read;
  encode64 = λ bytes. 64 ∷ bytes;
  decode64 = dropped;
}

abbrev pub token_fields : CursorToken Token
token_fields = record { version = λ t. t.version; limit = λ t. t.limit; offset = λ t. t.offset }

read-written : (t : Token) (bytes : Text) → written t ≡ some bytes → read bytes ≡ some t
read-written t [] h = cc
read-written t (a ∷ []) h = cc
read-written t (a ∷ b ∷ []) h = cc
read-written t (a ∷ b ∷ c ∷ []) h = cc
read-written t (a ∷ b ∷ c ∷ d ∷ s) h = cc

pub token_codec-IsFaithful : IsFaithful token_codec
token_codec-IsFaithful = record { base64 = λ bytes. refl; serde = read-written }

abbrev pub make_token : ℕ → ℕ → Token
make_token o l = record { version = 1; limit = l; offset = o }
