-- ===== src/Jobs/Table.antt =====
-- The rows of `refresh_jobs`, and the SQL that its operations are written in: a filtered choice of
-- the first row in an order, and an update of the rows with one id.
pub mod Select
pub mod Update
use rust_mcp.Prelude.{
  ℕ, suc, ◌+◌, ◌≤◌, ◌<◌, ◌≡◌, refl, Bool, true, false, ◌&&◌, ◌||◌, List, [], ◌∷◌, Option, none,
  some, arith, ◌==◌, if◌then◌else◌, select, All,
}
use rust_mcp.Order.{Ord}
use rust_mcp.Order.Sort.{sort_by}
use rust_mcp.Text.{Text, text_eq}

pub data Status : Type 0 where
  pending running finished failed : Status

abbrev pub is_pending : Status → Bool
is_pending pending = true
is_pending _ = false

abbrev pub is_running : Status → Bool
is_running running = true
is_running _ = false

-- `status IN ('pending', 'running')`.
abbrev pub is_active : Status → Bool
is_active pending = true
is_active running = true
is_active _ = false

-- A row. Times count seconds, `J` is the type of the JSON payload.
pub record RefreshJob (J : Type 0) : Type 0 where
  pub id : ℕ
  pub crate_name : Text
  pub scope : Text
  pub priority : ℕ
  pub status : Status
  pub attempts : ℕ
  pub include_dependencies : Bool
  pub payload : J
  pub requested_at : ℕ
  pub started_at : Option ℕ
  pub finished_at : Option ℕ
  pub last_error : Option Text

-- The table, and the next value of the sequence of `id`.
pub record Jobs (J : Type 0) : Type 0 where
  pub rows : List (RefreshJob J)
  pub next_id : ℕ

module _ {J : Type 0} where
  abbrev pub first : List (RefreshJob J) → Option (RefreshJob J)
  first [] = none
  first (row ∷ rows) = some row

  -- `SELECT … WHERE test ORDER BY key LIMIT 1`.
  unfoldable pub select_first :
      {K : Type 0}
      → Ord K
      → (RefreshJob J → K)
      → (RefreshJob J → Bool)
      → List (RefreshJob J)
      → Option (RefreshJob J)
  select_first o key test rows = first (sort_by o key (select test rows))

  -- `UPDATE … SET change WHERE id = …`.
  unfoldable pub update :
      ℕ → (RefreshJob J → RefreshJob J) → List (RefreshJob J) → List (RefreshJob J)
  update id change [] = []
  update id change (row ∷ rows) = (if row.id == id then change row else row) ∷ update id change rows
