-- ===== src/Jobs/Queue.antt =====
-- The queue operations of crates/rust-mcp/src/db/indexing.rs. Each is one SQL statement, but
-- `enqueue_or_get_refresh_job_id`, which selects and then inserts. `now` is the database's clock,
-- and `lower` is PostgreSQL's `LOWER`.
pub mod Claim
pub mod Unique
pub mod Enqueue
use rust_mcp.Prelude.{
  ℕ, suc, ◌+◌, ◌≤◌, ◌<◌, ◌≡◌, refl, Bool, true, false, ◌&&◌, ◌||◌, List, [], ◌∷◌, ◌++◌, Option,
  none, some, arith, ◌==◌, leb, if◌then◌else◌, select, length,
}
use rust_mcp.Order.{Ord, nat_ord, pair_ord}
use rust_mcp.Text.{Text, text_eq}
use rust_mcp.Jobs.Table.{
  Status, pending, running, finished, failed, is_pending, is_running, is_active, RefreshJob, Jobs,
  select_first, update,
}

pub record EnqueueOutcome : Type 0 where
  pub job_id : ℕ
  pub is_new : Bool

-- A job to be enqueued: what `enqueue_or_get_refresh_job_id` is called with.
pub record JobRequest (J : Type 0) : Type 0 where
  pub crate_name : Text
  pub scope : Text
  pub priority : ℕ
  pub include_dependencies : Bool
  pub payload : J

-- The gauges of the worker loop.
pub record RefreshJobGaugeCounts : Type 0 where
  pub pending_jobs : ℕ
  pub running_jobs : ℕ
  pub failed_jobs : ℕ
  pub background_pending_jobs : ℕ

abbrev pub is_failed : Status → Bool
is_failed failed = true
is_failed _ = false

-- `ORDER BY priority ASC, attempts ASC, requested_at ASC, id ASC`.
abbrev pub claim_order : Ord (ℕ × (ℕ × (ℕ × ℕ)))
claim_order = pair_ord nat_ord (pair_ord nat_ord (pair_ord nat_ord nat_ord))

module _ {J : Type 0} where
  -- A live job for the crate and scope. The crate name is compared in lower case.
  abbrev pub serves : (Text → Text) → Text → Text → RefreshJob J → Bool
  serves lower crate_name scope row =
      text_eq (lower row.crate_name) (lower crate_name)
      && (text_eq row.scope scope && is_active row.status)

  -- The first statement of `enqueue_or_get_refresh_job_id`.
  unfoldable pub find_active_job : (Text → Text) → Text → Text → Jobs J → Option (RefreshJob J)
  find_active_job lower crate_name scope q =
      select_first nat_ord (λ row. row.id) (serves lower crate_name scope) q.rows

  -- The row that an `INSERT` writes.
  abbrev pub new_row : ℕ → ℕ → JobRequest J → RefreshJob J
  new_row now id request = record {
    id = id;
    crate_name = request.crate_name;
    scope = request.scope;
    priority = request.priority;
    status = pending;
    attempts = 0;
    include_dependencies = request.include_dependencies;
    payload = request.payload;
    requested_at = now;
    started_at = none;
    finished_at = none;
    last_error = none;
  }

  -- Its second statement.
  unfoldable pub insert_job : ℕ → JobRequest J → Jobs J → Jobs J × ℕ
  insert_job now request q = (
    record { rows = q.rows ++ (new_row now q.next_id request ∷ []); next_id = q.next_id + 1 },
    q.next_id,
  )

  -- What follows the first statement.
  unfoldable pub insert_unless :
      Option (RefreshJob J) → ℕ → JobRequest J → Jobs J → Jobs J × EnqueueOutcome
  unfolding insert_job
  insert_unless (some existing) now request q = (q, record { job_id = existing.id; is_new = false })
  insert_unless none now request q =
      let (q', job_id) = insert_job now request q in (q', record { job_id = job_id; is_new = true })

  unfoldable pub enqueue_or_get_refresh_job_id :
      (Text → Text) → ℕ → JobRequest J → Jobs J → Jobs J × EnqueueOutcome
  unfolding insert_unless
  enqueue_or_get_refresh_job_id lower now request q =
      insert_unless (find_active_job lower request.crate_name request.scope q) now request q

  abbrev pub claim_key : RefreshJob J → ℕ × (ℕ × (ℕ × ℕ))
  claim_key row = (row.priority, (row.attempts, (row.requested_at, row.id)))

  abbrev pub is_runnable : ℕ → RefreshJob J → Bool
  is_runnable now row = is_pending row.status && leb row.requested_at now

  unfoldable pub start : ℕ → RefreshJob J → RefreshJob J
  start now row = record row {
    status = running;
    started_at = some now;
    finished_at = none;
    attempts = row.attempts + 1;
    last_error = none;
  }

  claim_row : ℕ → Option (RefreshJob J) → Jobs J → Jobs J × Option (RefreshJob J)
  unfolding start
  claim_row now none q = (q, none)
  claim_row now (some job) q =
      (record q { rows = update job.id (start now) q.rows }, some (start now job))

  -- Returns the claimed row as it stands after the update.
  unfoldable pub claim_next_refresh_job : ℕ → Jobs J → Jobs J × Option (RefreshJob J)
  unfolding claim_row
  claim_next_refresh_job now q =
      claim_row now (select_first claim_order claim_key (is_runnable now) q.rows) q

  unfoldable pub finish : ℕ → RefreshJob J → RefreshJob J
  finish now row = record row { status = finished; finished_at = some now; last_error = none }

  unfoldable pub mark_refresh_job_finished : ℕ → ℕ → Jobs J → Jobs J
  unfolding finish
  mark_refresh_job_finished now job_id q = record q { rows = update job_id (finish now) q.rows }

  unfoldable pub fail_or_requeue : ℕ → Bool → ℕ → Text → RefreshJob J → RefreshJob J
  fail_or_requeue now terminal retry_delay error row = record row {
    status = if terminal then failed else pending;
    requested_at = if terminal then row.requested_at else now + retry_delay;
    finished_at = if terminal then some now else none;
    last_error = some error;
  }

  unfoldable pub mark_refresh_job_failed_or_requeued : ℕ → ℕ → Bool → ℕ → Text → Jobs J → Jobs J
  unfolding fail_or_requeue
  mark_refresh_job_failed_or_requeued now job_id terminal retry_delay error q = record q {
    rows = update job_id (fail_or_requeue now terminal retry_delay error) q.rows;
  }

  abbrev count_where : (RefreshJob J → Bool) → List (RefreshJob J) → ℕ
  count_where test rows = length (select test rows)

  unfoldable pub fetch_refresh_job_gauge_counts : Jobs J → RefreshJobGaugeCounts
  fetch_refresh_job_gauge_counts q = record {
    pending_jobs = count_where (λ row. is_pending row.status) q.rows;
    running_jobs = count_where (λ row. is_running row.status) q.rows;
    failed_jobs = count_where (λ row. is_failed row.status) q.rows;
    background_pending_jobs =
        count_where (λ row. is_pending row.status && leb 50 row.priority) q.rows;
  }
