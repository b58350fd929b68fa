-- ===== src/Limits.antt =====
-- The request limits of crates/rust-mcp/src/mcp/utils.rs: each reads an optional u32 and clamps it.
use rust_mcp.Prelude.{
  ℕ, zero, suc, ◌≤◌, ◌≡◌, Option, none, some, List, [], ◌∷◌, ltb, if◌then◌else◌, unwrap_or, max,
}

-- `Ord::clamp`.
unfoldable pub clamp : ℕ → ℕ → ℕ → ℕ
clamp low high x = if ltb x low then low else if ltb high x then high else x

-- Crate search.
unfoldable pub search_limit : Option ℕ → ℕ
unfolding clamp
search_limit value = clamp 1 50 (unwrap_or 10 value)

-- Source search.
unfoldable pub source_search_limit : Option ℕ → ℕ
unfolding clamp
source_search_limit value = clamp 1 100 (unwrap_or 20 value)

-- Symbol search.
unfoldable pub symbol_search_limit : Option ℕ → ℕ
unfolding clamp
symbol_search_limit value = clamp 1 200 (unwrap_or 25 value)

-- Docs search.
unfoldable pub docs_search_limit : Option ℕ → ℕ
unfolding clamp
docs_search_limit value = clamp 1 200 (unwrap_or 25 value)

-- The last line of a source read.
unfoldable pub source_read_end_line : Option ℕ → ℕ
unfolding clamp
source_read_end_line value = clamp 1 2000 (unwrap_or 200 value)

-- Version listing.
unfoldable pub version_limit : Option ℕ → ℕ
unfolding clamp
version_limit value = clamp 1 500 (unwrap_or 100 value)

-- Dependents listing.
unfoldable pub dependents_limit : Option ℕ → ℕ
unfolding clamp
dependents_limit value = clamp 1 200 (unwrap_or 25 value)

-- Sync page size.
unfoldable pub sync_per_page : Option ℕ → ℕ
unfolding clamp
sync_per_page value = clamp 1 100 (unwrap_or 25 value)

-- Graph traversal depth.
unfoldable pub graph_depth : Option ℕ → ℕ
unfolding clamp
graph_depth value = clamp 1 4 (unwrap_or 1 value)

-- API diff entries.
unfoldable pub api_diff_limit : Option ℕ → ℕ
unfolding clamp
api_diff_limit value = clamp 1 2000 (unwrap_or 500 value)

-- Alternatives listing.
unfoldable pub alternatives_limit : Option ℕ → ℕ
unfolding clamp
alternatives_limit value = clamp 1 50 (unwrap_or 10 value)

-- Hotspots listing.
unfoldable pub hotspots_limit : Option ℕ → ℕ
unfolding clamp
hotspots_limit value = clamp 1 500 (unwrap_or 100 value)

-- API surface listing.
unfoldable pub crate_api_limit : Option ℕ → ℕ
unfolding clamp
crate_api_limit value = clamp 1 1000 (unwrap_or 200 value)

-- Trait implementations.
unfoldable pub trait_impls_limit : Option ℕ → ℕ
unfolding clamp
trait_impls_limit value = clamp 1 1000 (unwrap_or 200 value)

-- Dependency resolution.
unfoldable pub dependency_resolve_limit : Option ℕ → ℕ
unfolding clamp
dependency_resolve_limit value = clamp 1 1000 (unwrap_or 100 value)

-- Compatibility matrix versions.
unfoldable pub compatibility_matrix_version_limit : Option ℕ → ℕ
unfolding clamp
compatibility_matrix_version_limit value = clamp 1 20 (unwrap_or 5 value)

-- Compatibility matrix pairs.
unfoldable pub compatibility_matrix_max_pairs : Option ℕ → ℕ
unfolding clamp
compatibility_matrix_max_pairs value = clamp 1 200 (unwrap_or 25 value)

-- Usage patterns.
unfoldable pub usage_patterns_limit : Option ℕ → ℕ
unfolding clamp
usage_patterns_limit value = clamp 1 200 (unwrap_or 20 value)

-- Re-exports.
unfoldable pub re_exports_limit : Option ℕ → ℕ
unfolding clamp
re_exports_limit value = clamp 1 1000 (unwrap_or 200 value)

-- Import paths.
unfoldable pub import_path_limit : Option ℕ → ℕ
unfolding clamp
import_path_limit value = clamp 1 100 (unwrap_or 10 value)

-- Error types.
unfoldable pub error_types_limit : Option ℕ → ℕ
unfolding clamp
error_types_limit value = clamp 1 500 (unwrap_or 100 value)

-- The heavy-feature threshold.
unfoldable pub feature_impact_heavy_threshold : Option ℕ → ℕ
unfolding clamp
feature_impact_heavy_threshold value = clamp 1 100 (unwrap_or 5 value)

-- A page number: 1 where none is given, at least 1, with no upper end.
unfoldable pub sync_page : Option ℕ → ℕ
sync_page value = max 1 (unwrap_or 1 value)

-- A readme's character limit: `some 0` asks for no readme.
unfoldable pub readme_limit : Option ℕ → Option ℕ
unfolding clamp
readme_limit (some zero) = none
readme_limit none = some (clamp 500 200000 25000)
readme_limit (some (suc n)) = some (clamp 500 200000 (suc n))

-- A limit as its documentation states it.
pub record Documented : Type 0 where
  pub fallback : ℕ
  pub low : ℕ
  pub high : ℕ
  pub limit : Option ℕ → ℕ

abbrev documented : ℕ → ℕ → ℕ → (Option ℕ → ℕ) → Documented
documented d l h f = record { fallback = d; low = l; high = h; limit = f }

-- The doc comments of utils.rs: the default, and the two ends of the range.
abbrev pub documentation : List Documented
documentation =
    documented 10 1 50 search_limit
    ∷ documented 20 1 100 source_search_limit
    ∷ documented 25 1 200 symbol_search_limit
    ∷ documented 25 1 200 docs_search_limit
    ∷ documented 200 1 2000 source_read_end_line
    ∷ documented 100 1 500 version_limit
    ∷ documented 25 1 200 dependents_limit
    ∷ documented 25 1 100 sync_per_page
    ∷ documented 1 1 4 graph_depth
    ∷ documented 500 1 2000 api_diff_limit
    ∷ documented 10 1 50 alternatives_limit
    ∷ documented 100 1 500 hotspots_limit
    ∷ documented 200 1 1000 crate_api_limit
    ∷ documented 200 1 1000 trait_impls_limit
    ∷ documented 100 1 1000 dependency_resolve_limit
    ∷ documented 5 1 20 compatibility_matrix_version_limit
    ∷ documented 25 1 200 compatibility_matrix_max_pairs
    ∷ documented 20 1 200 usage_patterns_limit
    ∷ documented 200 1 1000 re_exports_limit
    ∷ documented 10 1 100 import_path_limit
    ∷ documented 100 1 500 error_types_limit
    ∷ documented 5 1 100 feature_impact_heavy_threshold
    ∷ []

-- The fallback is what a call with no value gets, each value gives one in the range, and each value
-- of the range is kept.
pub record Keeps (d : Documented) : Type 0 where
  pub default : d.limit none ≡ d.fallback
  pub above : (v : Option ℕ) → d.low ≤ d.limit v
  pub below : (v : Option ℕ) → d.limit v ≤ d.high
  pub exact : (n : ℕ) → d.low ≤ n → n ≤ d.high → d.limit (some n) ≡ n
