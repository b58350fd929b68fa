-- ===== src/Jobs/Coordinator.antt =====
-- `IndexingCoordinator` of crates/rust-mcp/src/mcp/indexing/coordinator.rs. A `watch` channel has a
-- number; its sender sends at most once, since it is taken out of the map to send. `Notify` holds
-- one permit at most.
pub mod Delivery
use rust_mcp.Prelude.{
  ℕ, ◌+◌, Bool, true, false, Option, none, some, ◌==◌, if◌then◌else◌, Result, ok, err, ◌>>=◌,
}
use rust_mcp.Text.{Text, codes}
use rust_mcp.Jobs.Table.{Jobs}
use rust_mcp.Jobs.Queue.{JobRequest, EnqueueOutcome, enqueue_or_get_refresh_job_id}

pub data JobOutcome : Type 0 where
  pending completed : JobOutcome
  failed : Text → JobOutcome

pub record IndexingCoordinator : Type 0 where
  pub worker_notify : Bool
  pub waiters : ℕ → Option ℕ
  -- What was sent on a channel.
  pub sent : ℕ → Option JobOutcome
  pub next_channel : ℕ

-- `IndexingCoordinator::new`.
abbrev pub new_coordinator : IndexingCoordinator
new_coordinator = record {
  worker_notify = false;
  waiters = λ _. none;
  sent = λ _. none;
  next_channel = 0;
}

-- A map with one entry replaced.
abbrev pub with {ℓ} : {V : Type ℓ} → ℕ → V → (ℕ → V) → ℕ → V
with k v m = λ j. if j == k then v else m j

-- `entry(job_id).or_insert_with(…)`, told what the entry was.
abbrev pub or_insert : Option ℕ → ℕ → IndexingCoordinator → IndexingCoordinator
or_insert (some channel) job_id c = c
or_insert none job_id c = record c {
  waiters = with job_id (some c.next_channel) c.waiters;
  next_channel = c.next_channel + 1;
}

unfoldable pub register : ℕ → IndexingCoordinator → IndexingCoordinator
register job_id c = or_insert (c.waiters job_id) job_id c

unfoldable pub notify_worker : IndexingCoordinator → IndexingCoordinator
notify_worker c = record c { worker_notify = true }

-- `waiters.remove(&job_id)` and `tx.send(outcome)`, told what the entry was.
abbrev pub send : Option ℕ → ℕ → JobOutcome → IndexingCoordinator → IndexingCoordinator
send none job_id outcome c = c
send (some channel) job_id outcome c = record c {
  waiters = with job_id none c.waiters;
  sent = with channel (some outcome) c.sent;
}

unfoldable pub signal_completion : ℕ → JobOutcome → IndexingCoordinator → IndexingCoordinator
signal_completion job_id outcome c = send (c.waiters job_id) job_id outcome c

-- The first half of `wait_for_job`: what `subscribe` finds.
unfoldable pub subscribe : ℕ → IndexingCoordinator → Option ℕ
subscribe job_id c = c.waiters job_id

-- A receiver that wakes: `none` while nothing was sent, and an error where the sender is gone
-- without an outcome.
abbrev pub closed : Text
closed = codes "on-demand job completion channel closed unexpectedly"

abbrev pub received : Option JobOutcome → Option (Result Text JobOutcome)
received none = none
received (some pending) = some (err closed)
received (some completed) = some (ok completed)
received (some (failed error)) = some (ok (failed error))

-- Its second half: what the caller knows when it looks again, on the channel it subscribed to. With
-- no channel the job counts as completed.
unfoldable pub await_outcome : Option ℕ → IndexingCoordinator → Option (Result Text JobOutcome)
await_outcome none c = some (ok completed)
await_outcome (some channel) c = received (c.sent channel)

module _ {J : Type 0} where
  -- `PRIORITY_ON_DEMAND`, and the job that is asked for.
  abbrev pub on_demand : Text → Text → J → JobRequest J
  on_demand crate_name scope payload = record {
    crate_name = crate_name;
    scope = scope;
    priority = 1;
    include_dependencies = false;
    payload = payload;
  }

  -- `enqueue_on_demand`, where the database answers.
  unfoldable pub enqueue_on_demand :
      (Text → Text)
      → ℕ
      → Text
      → Text
      → J
      → Jobs J × IndexingCoordinator
      → (Jobs J × IndexingCoordinator) × ℕ
  unfolding register notify_worker
  enqueue_on_demand lower now crate_name scope payload (q, c) =
      let (q', outcome) =
        enqueue_or_get_refresh_job_id lower now (on_demand crate_name scope payload) q in
      ((q', notify_worker (register outcome.job_id c)), outcome.job_id)
