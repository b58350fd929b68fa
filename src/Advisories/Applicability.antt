-- ===== src/Advisories/Applicability.antt =====
-- `Applicability` and `is_withdrawn`.
use rust_mcp.Prelude.{Bool, true, false, any}
use rust_mcp.Text.{Text, codes}
use rust_mcp.Text.Pieces.{split, starts_with}

pub data Applicability : Type 0 where
  affected not_affected unknown : Applicability

abbrev pub is_affected : Applicability → Bool
is_affected affected = true
is_affected _ = false

-- Stored RustSec metadata that records a withdrawal.
unfoldable pub is_withdrawn : Text → Bool
is_withdrawn affected_range =
    any (starts_with (codes "withdrawn=")) (split (codes "; ") affected_range)

-- What an evaluation ends with when no range matched.
abbrev pub unless_unknown : Bool → Applicability
unless_unknown true = unknown
unless_unknown false = not_affected
