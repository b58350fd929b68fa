-- ===== src/Security/Transactions.antt =====
-- A run that commits transactions, as the syncs of crates/rust-mcp/src/mcp/indexing/security.rs do:
-- what was committed, the last first, and the outcome or the error that ended it.
use rust_mcp.Prelude.{ℕ, List, Option, none, some, Result, ok, err, In}
use rust_mcp.Text.{Text}
use rust_mcp.Security.{SecuritySyncOutcome}

module _ (W : Type 0) where
  abbrev pub Log : Type 0
  Log = List (List W)

  abbrev pub Synced : Type 0
  Synced = Log × Result Text SecuritySyncOutcome

module _ {W : Type 0} where
  -- `?` on a step that may fail behind what is committed.
  abbrev pub unless_failed : Option Text → Log W → (Log W → Synced W) → Synced W
  unless_failed none log next = next log
  unless_failed (some error) log next = (log, err error)

  -- What holds of each checked id in a run that succeeds.
  abbrev pub AllChecked : (Log W → ℕ → Type 0) → Log W → SecuritySyncOutcome → Type 0
  AllChecked P log outcome = (id : ℕ) → In id outcome.checked_crate_ids → P log id

  abbrev pub Succeeds : (Log W → ℕ → Type 0) → Synced W → Type 0
  Succeeds P (log, ok outcome) = AllChecked P log outcome
  Succeeds P (log, err error) = Unit

  pub unless_failed-Succeeds :
      (P : Log W → ℕ → Type 0) (failed : Option Text) (log : Log W) (next : Log W → Synced W)
      → Succeeds P (next log)
      → Succeeds P (unless_failed failed log next)
  unless_failed-Succeeds P none log next h = h
  unless_failed-Succeeds P (some error) log next h = tt
