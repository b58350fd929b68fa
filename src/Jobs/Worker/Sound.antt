-- ===== src/Jobs/Worker/Sound.antt =====
-- What holds of the queue and of the worker's job at every moment, whoever enqueues in between.
use rust_mcp.Prelude.{
  ℕ, ◌≡◌, refl, sym, subst, Bool, true, false, [], Option, none, some, arith, ◌==◌, ==_iff,
  if◌then◌else◌, In, In-All, Bool-cases, Option-cases, inl, inr, Result, ok, err,
}
use rust_mcp.Text.{Text, codes}
use rust_mcp.Jobs.Table.{running, RefreshJob, Jobs}
use rust_mcp.Jobs.Table.Update.{AreDistinct-eq}
use rust_mcp.Jobs.Queue.{JobRequest, enqueue_or_get_refresh_job_id, start, claim_next_refresh_job}
use rust_mcp.Jobs.Queue.Claim.{claim-IsClaimOf}
use rust_mcp.Jobs.Queue.Unique.{
  IsWellFormed, enqueued-IsWellFormed, claimed-IsWellFormed, finished-IsWellFormed,
  broken-IsWellFormed,
}
use rust_mcp.Jobs.Retry.{jittered_retry_delay_seconds}
use rust_mcp.Jobs.Coordinator.{new_coordinator, enqueue_on_demand}
use rust_mcp.Jobs.Worker.Settled.{In-enqueued, In-update}
use rust_mcp.Jobs.Worker.{
  Handlers, Faults, WorkerState, is_crate_scope, dispatch, enqueue_enrichment, complete,
  give_up_or_retry, settle, process,
}

-- The process: what it shares, and the job that the worker has claimed and not yet settled.
pub record System (J : Type 0) : Type 0 where
  pub state : WorkerState J
  pub held : Option (RefreshJob J)

module _ {J : Type 0} (lower : Text → Text) where
  -- The held job stands in the table as it was claimed, and is running.
  abbrev pub IsHeld : Option (RefreshJob J) → Jobs J → Type 0
  IsHeld none q = Unit
  IsHeld (some job) q = In job q.rows × (job.status ≡ running)

  pub record IsSound (s : System J) : Type 0 where
    pub well_formed : IsWellFormed lower s.state.queue
    pub kept : IsHeld s.held s.state.queue

  enqueued-IsHeld :
      (now : ℕ) (request : JobRequest J) (held : Option (RefreshJob J)) (q : Jobs J)
      → IsHeld held q
      → IsHeld held (enqueue_or_get_refresh_job_id lower now request q).0
  enqueued-IsHeld now request none q k = tt
  enqueued-IsHeld now request (some job) q k = (In-enqueued lower now request job q k.0, k.1)

  claimed-IsHeld :
      (now : ℕ) (q : Jobs J)
      → IsHeld (claim_next_refresh_job now q).1 (claim_next_refresh_job now q).0
  claimed-IsHeld now q = elim (Option-cases (claim_next_refresh_job now q).1) [
    | inl e ↦ rw e tt
    | inr (job, e) ↦
        let (row, c) = claim-IsClaimOf now q job e in
        rw (e, c.written, c.returned)
          (In-update row (start now) q.rows c.chosen.present, unfold start in refl)
  ]

module _ {J Crate : Type 0} (lower : Text → Text) where
  module _ (h : Handlers J Crate) (faults : Faults) (now : ℕ) where
    enrichment-IsWellFormed :
        (crate_name scope : Text) (q : Jobs J)
        → IsWellFormed lower q
        → IsWellFormed lower (enqueue_enrichment h lower faults now crate_name scope q)
    unfolding enqueue_enrichment
    enrichment-IsWellFormed crate_name scope q w = elim (Bool-cases (faults.enrich scope)) [
      | inl e ↦ rw e w
      | inr e ↦ rw e (enqueued-IsWellFormed lower now _ q w)
    ]

    unless :
        (b : Bool) (q q' : Jobs J)
        → IsWellFormed lower q
        → IsWellFormed lower q'
        → IsWellFormed lower (if b then q else q')
    unless true q q' w w' = w
    unless false q q' w w' = w'

    complete-IsWellFormed :
        (job : RefreshJob J) (s : WorkerState J)
        → IsWellFormed lower s.queue
        → IsWellFormed lower (complete h lower faults now job s).queue
    unfolding complete
    complete-IsWellFormed job s w =
        let marked =
          unless faults.finish s.queue _ w (finished-IsWellFormed lower now job.id s.queue w) in
        unless (is_crate_scope job.scope) _ _
          (enrichment-IsWellFormed job.crate_name (codes "rustdoc_json") _
            (enrichment-IsWellFormed job.crate_name (codes "local_cache") _ marked))
          marked

    give_up_or_retry-IsWellFormed :
        (now_nanos : ℕ) (job : RefreshJob J) (error : Text) (s : WorkerState J)
        → In job s.queue.rows
        → job.status ≡ running
        → IsWellFormed lower s.queue
        → IsWellFormed lower (give_up_or_retry h lower faults now now_nanos job error s).queue
    unfolding give_up_or_retry
    give_up_or_retry-IsWellFormed now_nanos job error s m r w =
        unless faults.fail_or_requeue s.queue _ w (
          broken-IsWellFormed lower now job.id
            (jittered_retry_delay_seconds now_nanos job.id job.attempts) error job s.queue
            (In-All
              (λ (row : RefreshJob J).
                (row.id == job.id) ≡ true → (row.status ≡ running) × (row.attempts ≡ job.attempts))
              s.queue.rows
              (λ row m' t.
                subst (λ (x : RefreshJob J). (x.status ≡ running) × (x.attempts ≡ job.attempts))
                  (sym (
                    AreDistinct-eq row job s.queue.rows w.distinct m' m
                      ((==_iff row.id job.id).0 t)))
                  (r, refl)))
            w)

    settle-IsWellFormed :
        (now_nanos : ℕ) (job : RefreshJob J) (result : Result Text (Unit {0})) (s : WorkerState J)
        → In job s.queue.rows
        → job.status ≡ running
        → IsWellFormed lower s.queue
        → IsWellFormed lower (settle h lower faults now now_nanos job result s).queue
    unfolding settle
    settle-IsWellFormed now_nanos job (ok x) s m r w = complete-IsWellFormed job s w
    settle-IsWellFormed now_nanos job (err error) s m r w =
        give_up_or_retry-IsWellFormed now_nanos job error s m r w

-- A process on an empty table.
abbrev pub initial : {J : Type 0} → System J
initial = record {
  state = record {
    queue = record { rows = []; next_id = 1 };
    coordinator = new_coordinator;
    effects = [];
  };
  held = none;
}

module _ {J : Type 0} (Crate : Type 0) (lower : Text → Text) where
  -- One step: a background task enqueues, a tool handler asks for a job and registers to wait, the
  -- worker claims, the worker goes through its turn, or the process is started again.
  pub data Step (s : System J) : System J → Type 0 where
    requested :
        (now : ℕ) (request : JobRequest J) {s' : System J}
        → record s {
          state = record s.state {
            queue = (enqueue_or_get_refresh_job_id lower now request s.state.queue).0;
          };
        }
          ≡ s'
        → Step s s'
    asked :
        (now : ℕ) (crate_name scope : Text) (payload : J) {s' : System J}
        → (let after =
              (enqueue_on_demand lower now crate_name scope payload
                (s.state.queue, s.state.coordinator)).0 in
            record s { state = record s.state { queue = after.0; coordinator = after.1 } })
          ≡ s'
        → Step s s'
    took :
        (now : ℕ) {s' : System J}
        → s.held ≡ none
        → (let after = claim_next_refresh_job now s.state.queue in
            record { state = record s.state { queue = after.0 }; held = after.1 })
          ≡ s'
        → Step s s'
    went_through :
        (h : Handlers J Crate) (faults : Faults) (now now_nanos : ℕ) (job : RefreshJob J)
        {s' : System J}
        → s.held ≡ some job
        → record { state = process h lower faults now now_nanos job s.state; held = none } ≡ s'
        → Step s s'
    restarted :
        {s' : System J}
        → record { state = record s.state { coordinator = new_coordinator }; held = none } ≡ s'
        → Step s s'

  Step-IsSound : {s s' : System J} → Step s s' → IsSound lower s → IsSound lower s'
  Step-IsSound {s} (requested now request e) i = subst (IsSound lower) e (record {
    well_formed = enqueued-IsWellFormed lower now request s.state.queue i.well_formed;
    kept = enqueued-IsHeld lower now request s.held s.state.queue i.kept;
  })
  Step-IsSound {s} (asked now crate_name scope payload e) i = subst (IsSound lower) e (
      unfold enqueue_on_demand in
      record {
        well_formed = enqueued-IsWellFormed lower now _ s.state.queue i.well_formed;
        kept = enqueued-IsHeld lower now _ s.held s.state.queue i.kept;
      })
  Step-IsSound {s} (took now n e) i = subst (IsSound lower) e (record {
    well_formed = claimed-IsWellFormed lower now s.state.queue i.well_formed;
    kept = claimed-IsHeld lower now s.state.queue;
  })
  Step-IsSound {s} (went_through h faults now now_nanos job k e) i =
      let held : In job s.state.queue.rows × (job.status ≡ running) =
        subst (λ o. IsHeld lower o s.state.queue) k i.kept in
      subst (IsSound lower) e (record {
        well_formed =
            unfold process in
            settle-IsWellFormed lower h faults now now_nanos job (dispatch h job) s.state held.0
              held.1 i.well_formed;
        kept = tt;
      })
  Step-IsSound {s} (restarted e) i =
      subst (IsSound lower) e (record { well_formed = i.well_formed; kept = tt })

  pub data Reachable : System J → Type 0 where
    start_up : Reachable initial
    next : {s s' : System J} → Reachable s → Step s s' → Reachable s'

  pub Reachable-IsSound : {s : System J} → Reachable s → IsSound lower s
  Reachable-IsSound start_up = record {
    well_formed = record { fresh = tt; distinct = tt; single = λ c s. omega arith; tried = tt };
    kept = tt;
  }
  Reachable-IsSound (next r st) = Step-IsSound st (Reachable-IsSound r)
