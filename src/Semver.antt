-- ===== src/Semver.antt =====
-- The crates `semver` and `rustsec`, as a parameter: versions with their total order, requirements,
-- and RustSec's test on patched and unaffected requirements. On top of it stands
-- `parse_semver_for_matching` of crates/rust-mcp/src/mcp/advisories.rs.
use rust_mcp.Prelude.{Bool, not, ◌&&◌, List, Option, none, some}
use rust_mcp.Prelude.Options.{mapped}
use rust_mcp.Order.{Ord}
use rust_mcp.Text.{Text, codes}
use rust_mcp.Text.Pieces.{strip_prefix}

pub record Semver : Type 1 where
  pub Version : Type 0
  pub parse : Text → Option Version
  pub without_build : Version → Version
  pub order : Ord Version
  pub Requirement : Type 0
  pub parse_requirement : Text → Option Requirement
  pub matches : Requirement → Version → Bool
  pub Restrictions : Type 0
  pub restrict : List Requirement → List Requirement → Option Restrictions
  pub is_vulnerable : Restrictions → Version → Bool

abbrev without_v : Text → Option Text → Text
without_v s none = s
without_v s (some rest) = rest

-- One leading `v` is dropped, and what was parsed forgets its build metadata.
unfoldable pub parse_semver_for_matching : (σ : Semver) → Text → Option (σ.Version)
parse_semver_for_matching σ version =
    mapped σ.without_build (σ.parse (without_v version (strip_prefix (codes "v") version)))

-- `a >= b` and `a == b` on versions.
abbrev pub at_least : (σ : Semver) → σ.Version → σ.Version → Bool
at_least σ a b = not (σ.order.lt a b)

abbrev pub same_version : (σ : Semver) → σ.Version → σ.Version → Bool
same_version σ a b = not (σ.order.lt a b) && not (σ.order.lt b a)
