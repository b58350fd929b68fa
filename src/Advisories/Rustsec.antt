-- ===== src/Advisories/Rustsec.antt =====
-- RustSec ranges, `patched=a | b; unaffected=c; withdrawn=..`: `rustsec_applicability`.
use rust_mcp.Prelude.{not, List, [], ◌∷◌, ◌++◌, Option, none, some, if◌then◌else◌, is_empty, select}
use rust_mcp.Prelude.Options.{◌>>=◌}
use rust_mcp.Text.{Text, codes, text_eq}
use rust_mcp.Text.Pieces.{split, split_once}
use rust_mcp.Semver.{Semver}
use rust_mcp.Advisories.Applicability.{Applicability, affected, not_affected, unknown, is_withdrawn}

module _ (σ : Semver) where
  open σ use {Version, Requirement, parse_requirement, restrict, is_vulnerable}

  -- The two vectors that the loop fills.
  pub record Clauses : Type 0 where
    pub patched : List Requirement
    pub unaffected : List Requirement

  -- `none` is the early return of unknown applicability.
  requirements : List Text → List Requirement → Option (List Requirement)
  requirements [] target = some target
  requirements (text ∷ rest) target = do
    requirement ← parse_requirement text
    requirements rest (target ++ (requirement ∷ []))

  add_clause : Text → Text → Clauses → Option Clauses
  unfolding requirements
  add_clause key value clauses =
      if text_eq key (codes "patched")
      then (do
        patched ← requirements (split (codes " | ") value) clauses.patched
        some (record clauses { patched = patched }))
      else if text_eq key (codes "unaffected")
      then (do
        unaffected ← requirements (split (codes " | ") value) clauses.unaffected
        some (record clauses { unaffected = unaffected }))
      else if text_eq key (codes "categories")
      then some clauses
      else none

  each_clause : List Text → Clauses → Option Clauses
  unfolding add_clause
  each_clause [] clauses = some clauses
  each_clause (clause ∷ rest) clauses = do
    (key, value) ← split_once b'=' clause
    clauses ← add_clause key value clauses
    each_clause rest clauses

  judge : Version → Option Clauses → Applicability
  judge version none = unknown
  judge version (some clauses) = elim (restrict clauses.patched clauses.unaffected) [
    | none ↦ unknown
    | some versions ↦ if is_vulnerable versions version then affected else not_affected
  ]

  unfoldable pub rustsec_applicability : Text → Version → Applicability
  unfolding each_clause judge is_withdrawn
  rustsec_applicability affected_range version =
      if is_withdrawn affected_range
      then not_affected
      else judge version (
          each_clause (select (λ clause. not (is_empty clause)) (split (codes "; ") affected_range))
            (record { patched = []; unaffected = [] }))
