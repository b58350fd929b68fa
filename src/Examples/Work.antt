-- ===== src/Examples/Work.antt =====
-- The worker, its delays and its coordinator on concrete runs.
use rust_mcp.Prelude.{ℕ, ◌*◌, ◌≤◌, ◌≡◌, refl, false, List, [], ◌∷◌, some, none, In, here, ok, err}
use rust_mcp.Order.{pair_lt}
use rust_mcp.Order.Sort.{sort_by}
use rust_mcp.Text.{codes, to_lower}
use rust_mcp.Jobs.Table.{update, RefreshJob, select_first}
use rust_mcp.Jobs.Queue.{
  JobRequest, new_row, start, claim_next_refresh_job, find_active_job,
  enqueue_or_get_refresh_job_id,
}
use rust_mcp.Jobs.Retry.{
  backoff, jittered_retry_delay_seconds, jittered_retry_delay_seconds-backoff,
}
use rust_mcp.Jobs.Coordinator.{
  completed, failed, register, subscribe, await_outcome, new_coordinator,
}
use rust_mcp.Jobs.Coordinator.Delivery.{
  Event, registered, notified, signalled, perform_all, await_outcome-first_signal,
}
use rust_mcp.Jobs.Worker.{Handlers, Faults, WorkerState}
use rust_mcp.Jobs.Worker.Stuck.{done, further, restart_leaves_running}
use rust_mcp.Jobs.Worker.Sound.{System, requested, took, initial, start_up, next}

jittered_retry_delay_seconds-backoff_example :
    (backoff 2 * 85 ≤ jittered_retry_delay_seconds 123456789 7 2 * 100)
    × (jittered_retry_delay_seconds 123456789 7 2 * 100 ≤ backoff 2 * 115)
jittered_retry_delay_seconds-backoff_example = jittered_retry_delay_seconds-backoff 123456789 7 2

abbrev earlier_events : List Event
earlier_events =
    registered 4
    ∷ signalled 9 completed
    ∷ registered 7
    ∷ signalled 7 (failed (codes "timeout"))
    ∷ []

abbrev later_events : List Event
later_events =
    notified ∷ signalled 4 completed ∷ signalled 7 (failed (codes "404")) ∷ registered 7 ∷ []

await_outcome-first_signal_example :
    await_outcome
      (subscribe 7 (register 7 (perform_all earlier_events new_coordinator)))
      (perform_all later_events (register 7 (perform_all earlier_events new_coordinator)))
    ≡ some (ok (failed (codes "404")))
await_outcome-first_signal_example = await_outcome-first_signal 7 earlier_events later_events

-- Handlers that fail, but for the crate scopes.
abbrev handlers : Handlers ℕ ℕ
handlers = record {
  read_payload = λ payload. none;
  sync_single_crate = λ crate_name deep. ok tt;
  fetch_security_crates_page = λ limit offset. ok [];
  sync_security_crates = λ crates. [];
  sync_docs_pages = λ crate_name page per_page. err (codes "offline");
  sync_local_source_cache = λ crate_name query page per_page present. err (codes "offline");
  sync_rustdoc_json_cache = λ crate_name present page per_page. err (codes "offline");
  collect_local_versions_for_crate = λ crate_name. codes "1.0.0" ∷ [];
  enrichment = 0;
}

abbrev no_faults : Faults
no_faults = record {
  finish = false;
  fail_or_requeue = false;
  crate_error = false;
  enrich = λ scope. false;
}

abbrev docs_request : JobRequest ℕ
docs_request = record {
  crate_name = codes "serde";
  scope = codes "docs";
  priority = 10;
  include_dependencies = false;
  payload = 0;
}

abbrev docs_job : RefreshJob ℕ
docs_job = start 20 (new_row 10 1 docs_request)

abbrev at_work : WorkerState ℕ
at_work = record {
  queue = record { rows = docs_job ∷ []; next_id = 2 };
  coordinator = new_coordinator;
  effects = [];
}

abbrev enqueued : System ℕ
enqueued = record {
  state = record {
    queue = (enqueue_or_get_refresh_job_id to_lower 10 docs_request initial.state.queue).0;
    coordinator = new_coordinator;
    effects = [];
  };
  held = none;
}

abbrev claimed : System ℕ
claimed = record {
  state = record {
    queue = (claim_next_refresh_job 20 enqueued.state.queue).0;
    coordinator = new_coordinator;
    effects = [];
  };
  held = (claim_next_refresh_job 20 enqueued.state.queue).1;
}

abbrev restarted_system : System ℕ
restarted_system = record {
  state = record claimed.state { coordinator = new_coordinator };
  held = none;
}

abbrev asked_again : System ℕ
asked_again = record restarted_system {
  state = record restarted_system.state {
    queue = (enqueue_or_get_refresh_job_id to_lower 50 docs_request restarted_system.state.queue).0;
  };
}

docs_job_claimed : In docs_job claimed.state.queue.rows
docs_job_claimed =
    unfold claim_next_refresh_job enqueue_or_get_refresh_job_id find_active_job select_first sort_by
      pair_lt update in
    here refl

restart_leaves_running_example : In docs_job asked_again.state.queue.rows
restart_leaves_running_example =
    restart_leaves_running docs_job ℕ to_lower
      (next (next start_up (requested 10 docs_request refl)) (took 20 refl refl)) docs_job_claimed
      (unfold start in refl) refl (further done (requested 50 docs_request refl))
